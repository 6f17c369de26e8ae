-- ===== src/Store/Knowledge/Laws.antt =====
-- Knowledge keeps its first observation, and a question is answered once
-- (src/control-plane/store.ts).
use softwareoath.Store.Knowledge.{
  upsert_knowledge, answer_question, RepositoryKnowledgeRecord, Property, QuestionAnswer,
  ControlPlaneData, RepositoryQuestionRecord, ok, answered, new_knowledge, merge_knowledge, err,
  already_answered, answered_question,
}
use softwareoath.Base.{
  String, Option, find, ◌≡◌, ◌==◌, some, arith, ◌++◌, find-modify_first, ◌∷◌, eq_refl, [],
  Option-cases, inl, inr, eq_iff, find-true,
}

-- Storing knowledge again, however its record dates itself, keeps when and at which commit it was
-- first observed and created, and takes the new statement and time of verification; the stored
-- record is the one that is returned.
pub upsert_knowledge-again :
    (knowledge : RepositoryKnowledgeRecord Property) (doc : ControlPlaneData)
    (old : RepositoryKnowledgeRecord Option)
    → find (λ k. k.id == knowledge.id) doc.knowledge ≡ some old
    → let (after, stored) = upsert_knowledge knowledge doc in
      (find (λ k. k.id == knowledge.id) after.knowledge ≡ some stored)
      × (stored.first_observed_at ≡ old.first_observed_at)
      × (stored.first_observed_commit ≡ old.first_observed_commit)
      × (stored.created_at ≡ old.created_at)
      × (stored.statement ≡ knowledge.statement)
      × (stored.last_verified_at ≡ knowledge.last_verified_at)
unfolding upsert_knowledge
upsert_knowledge-again knowledge doc old found = (
  ground (
    arith,
    found,
    find-modify_first (λ k. k.id == knowledge.id) (λ _. merge_knowledge knowledge old) doc.knowledge
        {x = old} found (eq_refl knowledge.id),
  ),
  ground arith,
  ground arith,
  ground arith,
  ground arith,
  ground arith,
)

-- An answer that is accepted marks the question as answered and adds the owner's knowledge, which is
-- of the question's repository; the next answer to that question is refused, whatever it is.
pub answer_question_once :
    (id : String) (answer answer' : QuestionAnswer)
    (knowledge knowledge' : RepositoryKnowledgeRecord Property) (doc after : ControlPlaneData)
    (question : RepositoryQuestionRecord)
    → answer_question id answer knowledge doc ≡ ok (after, question)
    → (question.status ≡ answered)
      × (question.answer ≡ some answer)
      × (question.repository ≡ knowledge.repository)
      × (after.knowledge ≡ doc.knowledge ++ new_knowledge knowledge ∷ [])
      × (answer_question id answer' knowledge' after ≡ err (already_answered id))
unfolding answer_question
answer_question_once id answer answer' knowledge knowledge' doc after question e =
    elim (Option-cases (find (λ q. q.id == id) doc.questions)) [
      | inl missing ↦ absurd (ground arith)
      | inr (old, found) ↦ (
        ground arith,
        ground arith,
        ground (arith, eq_iff old.repository knowledge.repository),
        ground arith,
        ground (
          arith,
          find-modify_first (λ q. q.id == id) (λ _. answered_question answer knowledge old)
              doc.questions {x = old} found
              (find-true (λ q. q.id == id) doc.questions {x = old} found),
        ),
      )
    ]
