-- ===== src/Examples/Data.antt =====
-- The records of one small control plane, which the examples share: an incident, two runs of one
-- repository, an owner, and what the owner adds.
use softwareoath.Store.Approval.{decided_run, decide}
use softwareoath.Base.{some, none, ◌∷◌, [], false, true, ◌≡◌, refl}
use softwareoath.Records.Data.{ControlPlaneData, empty_data, ok}
use softwareoath.Records.Review.{
  ReviewerIdentity, ReviewerAuthorization, ReceiptSignature, ApprovalRecord, FinalAttestation,
  AuditEventRecord, AuthSessionRecord, admin, approved, decision_allowed, success,
}
use softwareoath.Records.Run.{
  IncidentRecord, HostedRunRecord, awaiting_approval, retry_wait, received, ready,
}

abbrev pub incident_one : IncidentRecord
incident_one = record {
  id = "i1";
  source = "sentry";
  external_id = "e1";
  title = "Checkout fails";
  status = "unresolved";
  priority = some "high";
  url = none;
  project = some "shop";
  release = none;
  received_at = 40;
  payload_digest = "d1";
}

-- A run that no worker has held.
abbrev pub run_one : HostedRunRecord
run_one = record {
  id = "r1";
  incident_id = "i1";
  repository = "acme/shop";
  commit = none;
  migration_specification_id = none;
  repair_commit = none;
  status = received;
  decision = none;
  repair_id = none;
  pull_request_url = none;
  branch = none;
  error = none;
  attempts = 0;
  max_attempts = 3;
  next_attempt_at = none;
  lease_owner = none;
  lease_expires_at = none;
  cancel_requested = false;
  created_at = 50;
  updated_at = 50;
}

-- A run that waits for its owner.
abbrev pub run_two : HostedRunRecord
run_two = record run_one { id = "r2"; status = awaiting_approval; attempts = 1; created_at = 45 }

-- A run that a worker has held and that waits to be taken up again.
abbrev pub run_waiting : HostedRunRecord
run_waiting = record run_one {
  status = retry_wait;
  attempts = 1;
  lease_owner = some "w1";
  next_attempt_at = some 90;
}

abbrev pub owner : ReviewerIdentity
owner = record { provider_user_id = "7"; login = "ann"; display_name = none; avatar_url = none }

abbrev pub owner_rights : ReviewerAuthorization
owner_rights = record { repository = "acme/shop"; permission = admin; verified_at = 60 }

abbrev pub signature : ReceiptSignature
signature = record { key_id = "k"; signed_at = 70; public_key = "p"; value = "v" }

abbrev pub approval_two : ApprovalRecord
approval_two = record {
  id = "a1";
  run_id = "r2";
  decision = approved;
  actor = "ann";
  identity = owner;
  authorization = owner_rights;
  reason = "The proof holds.";
  created_at = 70;
}

abbrev pub attestation_two : FinalAttestation
attestation_two = record {
  id = "t1";
  run_id = "r2";
  incident = record { id = "i1"; source = "sentry"; external_id = "e1"; payload_digest = "d1" };
  repository = "acme/shop";
  base_commit = "c0";
  repair_commit = some "c1";
  repair_id = "p1";
  branch = "repair/p1";
  pull_request_url = "https://example.org/1";
  verification = record {
    decision = ready;
    selected_finding_resolved = true;
    blocking_new_findings = 0;
    cost = none;
  };
  receipt_sha256 = "s";
  receipt_key_id = "k";
  receipt_signature = "v";
  decision = record {
    value = approved;
    identity = owner;
    authorization = owner_rights;
    reason = "The proof holds.";
    decided_at = 70;
  };
  generated_at = 70;
  signature = signature;
}

abbrev pub audit_two : AuditEventRecord
audit_two = record {
  id = "e1";
  action = decision_allowed;
  outcome = success;
  actor = some owner;
  run_id = some "r2";
  repository = none;
  detail = "approved";
  created_at = 70;
}

abbrev pub session_one : AuthSessionRecord
session_one = record {
  id = "s1";
  identity = owner;
  encrypted_access_token = "x";
  csrf_token = "y";
  created_at = 60;
  expires_at = 160;
}

abbrev pub shop : ControlPlaneData
shop = record empty_data {
  incidents = incident_one ∷ [];
  runs = run_two ∷ run_one ∷ [];
  auth_sessions = session_one ∷ [];
}

-- The document in which the run waits to be taken up again.
abbrev pub waiting_shop : ControlPlaneData
waiting_shop = record shop { runs = run_waiting ∷ [] }

-- The document after the decision on the run that waits for its owner.
abbrev pub decided_shop : ControlPlaneData
decided_shop = record shop {
  approvals = approval_two ∷ [];
  attestations = attestation_two ∷ [];
  audit_events = audit_two ∷ [];
  runs = decided_run approval_two run_two ∷ run_one ∷ [];
}

pub decided :
    decide approval_two attestation_two audit_two shop
    ≡ ok (decided_shop, decided_run approval_two run_two)
unfolding decide decided_run
decided = refl
