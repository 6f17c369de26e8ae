-- ===== src/Examples/Records.antt =====
-- The laws of the document, of intake, registrations, sessions, knowledge and analyses, at the records
-- of `Examples.Data`.
use softwareoath.Records.Run.{HostedRunRecord}
use softwareoath.Store.Approval.{decide, decided_run}
use softwareoath.Store.Document.Writes.{
  Change, AllReadBack, write_all, change_all, stored, write_all-change_all,
}
use softwareoath.Store.Document.{supplied}
use softwareoath.Store.Document.Laws.{read_ok_iff}
use softwareoath.Records.Values.{Property, finite}
use softwareoath.Examples.Data.{
  incident_one, shop, owner, run_one, owner_rights, decided, approval_two, decided_shop,
  attestation_two, audit_two,
}
use softwareoath.Base.{◌≡◌, some, ◌∷◌, [], none, ◌↔◌, ◌≢◌, false, Option, if◌then◌else◌, refl, ◌==◌}
use softwareoath.Store.Knowledge.{answered_question, new_knowledge}
use softwareoath.Store.Registry.{upsert_repository}
use softwareoath.Records.Repository.{
  RepositoryRegistration, RepositoryKnowledgeRecord, RepositoryQuestionRecord, QuestionAnswer,
  open_question, owner_confirmed_business_fact, daily, repository, never, owner_answer,
}
use softwareoath.Records.Data.{ControlPlaneData, ok, err, not_awaiting_approval}
use softwareoath.Store.Document.{read, StoredDocument, Json}

-- A document that an early version has written: none of the later lists.
abbrev early_document : StoredDocument
early_document = record {
  incidents = incident_one ∷ [];
  runs = run_one ∷ [];
  approvals = [];
  logs = [];
  mappings = [];
  attestations = none;
  auth_sessions = none;
  audit_events = none;
  repositories = none;
  knowledge = none;
  optimizer_analyses = none;
  questions = none;
  heartbeats = none;
}

-- A file whose text is the early document, whatever it says.
abbrev early_json : Json
early_json = record { parse = λ text. some early_document; stringify = λ d. "{}" }

read_ok_iff_example : ((doc : ControlPlaneData) × (read early_json (some "{}") ≡ ok doc)) ↔ (
    (stored : StoredDocument) × (early_json.parse "{}" ≡ some stored)
    × (stored.optimizer_analyses ≢ none))
read_ok_iff_example = read_ok_iff early_json "{}"

abbrev registration_one : RepositoryRegistration Property
registration_one = record {
  id = "g1";
  repository = "acme/shop";
  clone_url = "https://example.org/shop.git";
  default_branch = "main";
  installation_id = none;
  local_path = some none;
  schedule = record { mode = daily; cron = none; timezone = "UTC" };
  policy = record {
    max_pull_requests_per_run = 1;
    max_ci_repair_attempts = 2;
    allow_major_package_updates = false;
  };
  next_run_at = some (some 500);
  last_run_at = none;
  created_at = 60;
  updated_at = 60;
}

-- The document with the repository registered under another id before.
abbrev registered_shop : ControlPlaneData
registered_shop = (upsert_repository (record registration_one { id = "g0" }) shop).0

abbrev knowledge_one : RepositoryKnowledgeRecord Property
knowledge_one = record {
  id = "n1";
  repository = "acme/shop";
  kind = owner_confirmed_business_fact;
  statement = "Orders are kept for seven years.";
  scope = record { type = repository; value = "acme/shop" };
  source = record {
    type = owner_answer;
    run_id = none;
    commit = none;
    question_id = some "q1";
    evidence = [];
  };
  confidence = finite false 1 0;
  related_paths = [];
  blocks_repair = false;
  first_observed_at = 200;
  last_verified_at = 200;
  first_observed_commit = none;
  last_verified_commit = some none;
  confirmed_by = some (some owner);
  confirmed_authorization = none;
  review_at = none;
  expires_at = none;
  created_at = 200;
  updated_at = 200;
}

-- What the store has kept under the same id.
abbrev known_before : RepositoryKnowledgeRecord Option
known_before = new_knowledge (record knowledge_one { first_observed_at = 100; created_at = 100 })

abbrev known_shop : ControlPlaneData
known_shop = record shop { knowledge = known_before ∷ [] }

abbrev question_one : RepositoryQuestionRecord
question_one = record {
  id = "q1";
  repository = "acme/shop";
  key = "retention";
  status = open_question;
  question = "How long are orders kept?";
  why = "A repair may delete them.";
  evidence = [];
  affects = [];
  suggested_answers = [];
  blocking = never;
  answer_knowledge_kind = owner_confirmed_business_fact;
  answer = none;
  knowledge_id = none;
  created_at = 100;
  updated_at = 100;
}

abbrev answer_one : QuestionAnswer
answer_one = record {
  value = "Seven years.";
  identity = owner;
  authorization = owner_rights;
  answered_at = 200;
}

abbrev asking_shop : ControlPlaneData
asking_shop = record shop { questions = question_one ∷ [] }

abbrev answered_one : RepositoryQuestionRecord
answered_one = answered_question answer_one knowledge_one question_one

abbrev answered_shop : ControlPlaneData
answered_shop = record asking_shop {
  questions = answered_one ∷ [];
  knowledge = new_knowledge knowledge_one ∷ [];
}

-- A text for the document before its decision and one for the document after it, and the decision
-- made twice, of which the second is refused.
abbrev two_texts : Json
two_texts = record {
  parse = λ text. if text == "before" then some (stored shop) else some (stored decided_shop);
  stringify = λ d. "after";
}

abbrev decision_two : Change HostedRunRecord
decision_two = decide approval_two attestation_two audit_two

refused_again : decision_two decided_shop ≡ err (not_awaiting_approval "r2")
unfolding decide decided_run
refused_again = refl

shop_before : read two_texts (some "before") ≡ ok shop
unfolding read supplied
shop_before = refl

both_read_back : AllReadBack two_texts (decision_two ∷ decision_two ∷ []) shop
both_read_back = rw decided (refl, (rw refused_again tt, tt))

write_all-change_all_example :
    let changes = decision_two ∷ decision_two ∷ [] in
    (read two_texts (write_all two_texts changes (some "before")).0
      ≡ ok (change_all changes shop).0)
    × ((write_all two_texts changes (some "before")).1 ≡ (change_all changes shop).1)
write_all-change_all_example =
    write_all-change_all two_texts (decision_two ∷ decision_two ∷ []) (some "before") shop
      shop_before both_read_back
