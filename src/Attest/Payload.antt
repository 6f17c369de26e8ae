-- ===== src/Attest/Payload.antt =====
-- The receipt that stands for the manifest of a bundle: `bundleAsReceiptPayload`
-- (src/control-plane/bundle.ts).
use softwareoath.Records.Values.{finite}
use softwareoath.Attest.Json.{
  json_bool, json_null, json_text, json_array, json_object, json_number, member, no_members,
  no_items, Json, Members, units,
}
use softwareoath.Repair.GitStatus.{Text}
use softwareoath.Base.{true, false, List, [], ◌∷◌, ◌++◌, zero, suc, String, ℕ}

-- An object of the members of a list.
abbrev pub object_of : List (String × Json) → Members
object_of [] = no_members
object_of ((key, value) ∷ members) = member (units key) value (object_of members)

abbrev pub nil_number : Json
nil_number = json_number (finite false 0 0)

abbrev pub one_number : Json
one_number = json_number (finite false 1 0)

abbrev pub word : String → Json
word text = json_text (units text)

abbrev pub object : List (String × Json) → Json
object members = json_object (object_of members)

abbrev pub no_findings : Json
no_findings = object (
    ("total", nil_number)
    ∷ ("critical", nil_number)
    ∷ ("high", nil_number)
    ∷ ("medium", nil_number)
    ∷ ("low", nil_number)
    ∷ ("automaticCandidates", nil_number)
    ∷ [])

abbrev pub no_array : Json
no_array = json_array no_items

-- `text.slice(0, n)`
abbrev pub take : ℕ → Text → Text
take zero t = []
take (suc n) [] = []
take (suc n) (x ∷ t) = x ∷ take n t

abbrev pub bundle_finding : Json
bundle_finding = object (
    ("id", word "BUNDLE-MANIFEST")
    ∷ ("detector", word "software-oath")
    ∷ ("category", word "maintainability")
    ∷ ("severity", word "low")
    ∷ ("title", word "Attestation Bundle Manifest")
    ∷ ("summary", word "Bundle manifest")
    ∷ ("evidence", object (("detail", word "Attestation bundle") ∷ []))
    ∷ (
      "repair",
      object (
          ("objective", word "Export bundle")
          ∷ ("allowedPaths", no_array)
          ∷ ("automaticCandidate", json_bool false)
          ∷ []),
    )
    ∷ [])

abbrev pub bundle_proof : Json
bundle_proof = object (
    ("selectedFindingId", word "BUNDLE-MANIFEST")
    ∷ ("selectedFindingResolved", json_bool true)
    ∷ ("remainingSelectedFinding", json_null)
    ∷ ("before", no_findings)
    ∷ ("after", no_findings)
    ∷ ("newFindings", no_array)
    ∷ ("blockingNewFindings", no_array)
    ∷ [])

abbrev pub bundle_run : Text → Text → Json
bundle_run root generated_at = object (
    ("id", word "RUN-1")
    ∷ (
      "incident",
      object (
          ("title", word "Attestation bundle export")
          ∷ ("source", word "software-oath")
          ∷ ("detectedAt", json_text generated_at)
          ∷ []),
    )
    ∷ (
      "repository",
      object (("branch", word "detached") ∷ ("commit", json_text (take 7 root)) ∷ []),
    )
    ∷ (
      "repair",
      object (("summary", word "Bundle export") ∷ ("files", no_array) ∷ ("diff", no_array) ∷ []),
    )
    ∷ ("evidence", no_array)
    ∷ [])

abbrev pub bundle_report : Text → Json
bundle_report generated_at = object (
    ("runId", word "RUN-1")
    ∷ ("application", word "Software Oath attestation bundle")
    ∷ ("decision", word "ready")
    ∷ ("generatedAt", json_text generated_at)
    ∷ (
      "summary",
      object (("passed", nil_number) ∷ ("failed", nil_number) ∷ ("humanReview", nil_number) ∷ []),
    )
    ∷ ("rules", no_array)
    ∷ [])

abbrev pub bundle_execution : Text → Json
bundle_execution generated_at = object (
    ("repositoryPath", word ".")
    ∷ ("startedAt", json_text generated_at)
    ∷ ("completedAt", json_text generated_at)
    ∷ ("runner", word "local")
    ∷ [])

-- `bundleAsReceiptPayload`
unfoldable pub bundle_as_receipt_payload : Text → Text → Members
bundle_as_receipt_payload root generated_at = object_of (
    ("version", one_number)
    ∷ ("id", json_text (units "BUNDLE-" ++ take 16 root))
    ∷ ("repositoryPath", word ".")
    ∷ ("baseCommit", json_text (take 7 root))
    ∷ ("finding", bundle_finding)
    ∷ ("inspection", no_findings)
    ∷ (
      "agent",
      object (
          ("name", word "Software Oath")
          ∷ ("summary", word "Attestation Exporter")
          ∷ ("output", word "")
          ∷ []),
    )
    ∷ (
      "changes",
      object (
          ("files", no_array)
          ∷ ("withinAllowedScope", json_bool true)
          ∷ ("patchPath", word "")
          ∷ ("patchSha256", json_text root)
          ∷ []),
    )
    ∷ ("proof", bundle_proof)
    ∷ (
      "verification",
      object (
          ("version", one_number)
          ∷ ("run", bundle_run root generated_at)
          ∷ ("report", bundle_report generated_at)
          ∷ ("execution", bundle_execution generated_at)
          ∷ []),
    )
    ∷ ("decision", word "ready")
    ∷ ("generatedAt", json_text generated_at)
    ∷ [])
