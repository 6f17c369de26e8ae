-- ===== src/Lib.antt =====
-- Software Oath: the control plane, the oath and the acceptance of repairs.
--
-- Software Oath takes in an incident of a repository, has a worker claim it and repair it in an
-- isolated workspace, decides from the repository's oath and from a fresh inspection whether the
-- repair is acceptable, and waits for an owner to approve it. A steward starts runs for registered
-- repositories by a schedule, and an owner signs in with GitHub. These parts of the program are
-- modelled, with the records that they share.
--
--   Base       lists, texts, options and tests on numbers (not code of the program), with a stable
--              sort in Base.Sort that stands for `Array.prototype.sort`
--   Records    the records: src/control-plane/types.ts (Run, Review, Repository, Data),
--              src/optimizer/types.ts as far as the store keeps it (Optimizer), and the numbers,
--              instants and optional properties of the language (Values)
--   Store      `FileControlPlaneStore` of src/control-plane/store.ts. Document is `read` and `update`,
--              Incidents is `addIncident` and its lists, Approval is `decide`, Lease is `claimRun`,
--              Control is `updateRun` to `retryRun`, Registry is mappings and registrations, Sessions
--              is sessions, the audit trail, heartbeats and `garbageCollect`, Erasure is
--              `deleteRepositoryData`, Knowledge is knowledge and questions, and Analyses is the
--              optimizer's analyses. Sound is an invariant of the document, and History has every
--              operation that changes the document as a value, so that a history is a list of them;
--              Document.Writes has series of changes over the file, and below History are properties of
--              one run through a history (Found, Runs), of decisions and of cancellations.
--   Oath       src/domain/types.ts and src/domain/oath.ts. Parse is `parseOath` from the value that
--              the YAML parser returns, and Evaluate is `evaluateOath`.
--   Repair     Proof is src/repair/proof.ts with the decision of `runRepair`, Scope is the check of
--              the changed files (both src/repair/run.ts), and GitStatus is the parser of the list of
--              changed files (src/repair/git-status.ts), over the 16-bit units of a text.
--   Worker     Steps is `log`, `assertActive` and what `process` does with an error, and Checks is
--              `monitorCi` (src/control-plane/orchestrator.ts) with the verdict of `checkCommit`
--              (src/integrations/github.ts). They call the methods of the store, with no other
--              operation between them. The request to GitHub, the digits of a number and the ids
--              drawn for logs are parameters.
--   Steward    Schedule is src/steward/schedule.ts: `nextScheduledAt` from the mode or the cron text
--              of a registration, and in Enqueue the calls that start runs over the store.
--   Auth       src/control-plane/auth.ts: Cookies is `cookies` and `cookie`, State is the signed state
--              of a sign-in, whose payload may lack its parts once it is parsed, Sessions is `ReviewerSessions` over the store, and Rights is what
--              `GitHubReviewerOAuth` makes of the answers of GitHub. Cookies.Laws.Browser is what a browser
--              keeps of the headers that are set, and sends back: the pair before the first semicolon,
--              unless the age is zero. It had no cookies before, and does not let one end by its age.
--   Integrations  Secrets is `SecretBox` and its callers of src/integrations/secrets.ts.
--   Attest     Json is `canonicalJson`, Signature is `signReceipt` and `verifyReceiptSignature`, Keys is
--              the keys of the environment (src/repair/signature.ts) and `verifyFinalAttestation`
--              (src/control-plane/attestation.ts, in Signature); Merkle, Payload and Bundle are
--              src/control-plane/bundle.ts.
--   Examples   concrete inputs at which the theorems are applied
--
-- A method of the store is a function from the document to the document and its value, in the order
-- of the method's own parameters. A method that throws returns an error of `StoreError`, whose
-- constructors carry what the message names. `update` has one change run at a time on its chain of
-- writes, so that a history of the document is a sequence of whole operations. `requestCancellation`
-- reads first and changes afterwards: its two steps are also two functions, `cancellation` and
-- `update_run`, so that other operations may come between them.
--
-- An instant is a natural number of milliseconds. The program compares the texts of `toISOString`,
-- whose order is that of the instants up to the year 9999. The file of the store is an optional text,
-- which a rename replaces as a whole. A property that the type declares as optional is an
-- `Option`; an argument that `Object.assign` reads also says whether the property is present with
-- the value undefined. An integer of a record is a natural number, and a number that a YAML file
-- gives is a fraction, an infinity or nan.
--
-- A stored analysis is taken to have its list of the owners' decisions, which `read` would supply.
--
-- Every loop of these parts goes over a list and is structural recursion, but for two. The loop of
-- `nextScheduledAt`, which the source bounds by the minutes of 366 days, is `find_minute` over the
-- rounds that are left. The loop of `computeMerkleRoot` is `climb`, with as many rounds as there are
-- records: each round makes the layer shorter, which is why they are enough.
--
-- Parameters stand for what the code calls: `Json` for the parsing and the writing of the file of the
-- store, which may lose a number that is not finite, `Platform` for the numbers and the time zones of the
-- language, `Web` for the codes of a URL, `Signing` and `Cipher` for digests, ciphers and encodings,
-- `Scheme`, `Writing` and `Tools` for signatures, the texts of JSON and the digest of a bundle.
-- `IsWeb`, `IsSigning`, `IsCipher` and `IsScheme` are their documented laws, which the theorems name
-- where they use them; `Examples.Codes` and `Examples.Bundles` have some that keep them.
--
-- Not modelled are the parts that mostly do input and output: the HTTP server, the PostgreSQL store,
-- the worker's git and GitHub calls, the runners, the artifact stores, the other integrations and the
-- web client. The making of final attestations, the parsing of events, the memory of a repository and
-- the optimizer's analysis and recommendation are not modelled either. The YAML parser is a library:
-- `parse_oath` starts from the value that it returns.
pub mod Base
pub mod Records
pub mod Integrations
pub mod Auth
pub mod Attest
pub mod Steward
pub mod Store
pub mod Oath
pub mod Repair
pub mod Worker
pub mod Examples
