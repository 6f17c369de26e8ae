-- ===== src/Store/Knowledge.antt =====
-- Knowledge and questions: `listKnowledge`, `upsertKnowledge`, `listQuestions`, `upsertQuestion`
-- and `answerQuestion` (src/control-plane/store.ts).
pub mod Laws
use softwareoath.Base.{
  String, Bool, true, false, not, ◌&&◌, Option, none, some, List, [], ◌∷◌, ◌++◌, find, filter,
  modify_first, if◌then◌else◌, ◌==◌,
}
use softwareoath.Records.Values.{Property, assign, settle}
use softwareoath.Records.Repository.{
  RepositoryKnowledgeRecord, RepositoryQuestionRecord, QuestionAnswer, QuestionStatus, answered,
  open_question,
}
use softwareoath.Records.Data.{
  ControlPlaneData, Result, ok, err, question_not_found, already_answered, foreign_knowledge,
}

unfoldable pub list_knowledge :
    Option String → ControlPlaneData → List (RepositoryKnowledgeRecord Option)
list_knowledge none doc = doc.knowledge
list_knowledge (some repository) doc =
    if repository == ""
    then doc.knowledge
    else filter (λ k. k.repository == repository) doc.knowledge

-- `Object.assign(existing, knowledge, …)`: when it was first observed stays.
unfoldable pub merge_knowledge :
    RepositoryKnowledgeRecord Property
    → RepositoryKnowledgeRecord Option
    → RepositoryKnowledgeRecord Option
merge_knowledge knowledge existing = record {
  id = knowledge.id;
  repository = knowledge.repository;
  kind = knowledge.kind;
  statement = knowledge.statement;
  scope = knowledge.scope;
  source = knowledge.source;
  confidence = knowledge.confidence;
  related_paths = knowledge.related_paths;
  blocks_repair = knowledge.blocks_repair;
  first_observed_at = existing.first_observed_at;
  last_verified_at = knowledge.last_verified_at;
  first_observed_commit = existing.first_observed_commit;
  last_verified_commit = assign knowledge.last_verified_commit existing.last_verified_commit;
  confirmed_by = assign knowledge.confirmed_by existing.confirmed_by;
  confirmed_authorization =
      assign knowledge.confirmed_authorization existing.confirmed_authorization;
  review_at = assign knowledge.review_at existing.review_at;
  expires_at = assign knowledge.expires_at existing.expires_at;
  created_at = existing.created_at;
  updated_at = knowledge.updated_at;
}

unfoldable pub new_knowledge : RepositoryKnowledgeRecord Property → RepositoryKnowledgeRecord Option
new_knowledge knowledge = record {
  id = knowledge.id;
  repository = knowledge.repository;
  kind = knowledge.kind;
  statement = knowledge.statement;
  scope = knowledge.scope;
  source = knowledge.source;
  confidence = knowledge.confidence;
  related_paths = knowledge.related_paths;
  blocks_repair = knowledge.blocks_repair;
  first_observed_at = knowledge.first_observed_at;
  last_verified_at = knowledge.last_verified_at;
  first_observed_commit = settle knowledge.first_observed_commit;
  last_verified_commit = settle knowledge.last_verified_commit;
  confirmed_by = settle knowledge.confirmed_by;
  confirmed_authorization = settle knowledge.confirmed_authorization;
  review_at = settle knowledge.review_at;
  expires_at = settle knowledge.expires_at;
  created_at = knowledge.created_at;
  updated_at = knowledge.updated_at;
}

unfoldable pub upsert_knowledge :
    RepositoryKnowledgeRecord Property
    → ControlPlaneData
    → ControlPlaneData × RepositoryKnowledgeRecord Option
unfolding merge_knowledge new_knowledge
upsert_knowledge knowledge doc = elim (find (λ k. k.id == knowledge.id) doc.knowledge) [
  | none ↦ (
    record doc { knowledge = doc.knowledge ++ new_knowledge knowledge ∷ [] },
    new_knowledge knowledge,
  )
  | some existing ↦ (
    record doc {
      knowledge =
          modify_first (λ k. k.id == knowledge.id) (λ _. merge_knowledge knowledge existing)
            doc.knowledge;
    },
    merge_knowledge knowledge existing,
  )
]

unfoldable pub list_questions : String → ControlPlaneData → List RepositoryQuestionRecord
list_questions repository doc = filter (λ q. q.repository == repository) doc.questions

unfoldable pub upsert_question :
    RepositoryQuestionRecord → ControlPlaneData → ControlPlaneData × RepositoryQuestionRecord
upsert_question question doc =
    elim (find (λ q. q.repository == question.repository && q.key == question.key) doc.questions) [
      | none ↦ (record doc { questions = doc.questions ++ question ∷ [] }, question)
      | some existing ↦ (doc, existing)
    ]

abbrev pub is_answered : QuestionStatus → Bool
is_answered answered = true
is_answered open_question = false

-- The question as its answer leaves it.
unfoldable pub answered_question :
    QuestionAnswer
    → RepositoryKnowledgeRecord Property
    → RepositoryQuestionRecord
    → RepositoryQuestionRecord
answered_question answer knowledge question = record question {
  status = answered;
  answer = some answer;
  knowledge_id = some knowledge.id;
  updated_at = answer.answered_at;
}

unfoldable pub answer_question :
    String
    → QuestionAnswer
    → RepositoryKnowledgeRecord Property
    → ControlPlaneData
    → Result (ControlPlaneData × RepositoryQuestionRecord)
unfolding answered_question new_knowledge
answer_question question_id answer knowledge doc =
    elim (find (λ q. q.id == question_id) doc.questions) [
      | none ↦ err (question_not_found question_id)
      | some question ↦
          if is_answered question.status
          then err (already_answered question_id)
          else if not (question.repository == knowledge.repository)
          then err foreign_knowledge
          else ok (
            record doc {
              questions =
                  modify_first (λ q. q.id == question_id)
                    (λ _. answered_question answer knowledge question) doc.questions;
              knowledge = doc.knowledge ++ new_knowledge knowledge ∷ [];
            },
            answered_question answer knowledge question,
          )
    ]
