-- ===== src/Research/Consistency/Updates.antt =====
-- Updates of jobs that leave the tables consistent.
use choice_mind.Prelude.{
  String, ◌≡◌, ◌≢◌, sym, subst, ◌∙◌, Bool, true, List, [], ◌∷◌, map, inl, inr, All, Any, All-map,
  Bool-cases, ◌==◌, eq_iff,
}
use choice_mind.Research.Tables.{JobRow, ResultRow, completed, update_where}
use choice_mind.Research.Tables.Rows.{
  Distinct, In, All-every, All-update_where, map-update_where, All-same_key,
}
use choice_mind.Research.Consistency.{IsSound, Recorded, IsConsistent}

-- An update that keeps ids: the rows it selects are still open, and sound afterwards.
module _ (p : JobRow → Bool) (f : JobRow → JobRow)
    (keeps : (j : JobRow) → (f j).job_id ≡ j.job_id) where
  pub Any-update_where :
      (k : String) (jobs : List JobRow)
      → Any (λ j. j.job_id ≡ k) jobs
      → Any (λ j. j.job_id ≡ k) (update_where p f jobs)
  Any-update_where k [] h = absurd h
  Any-update_where k (j ∷ jobs) (inl e) = elim (Bool-cases (p j)) [
    | inl q ↦ rw q (inl (keeps j ∙ e))
    | inr q ↦ rw q (inl e)
  ]
  Any-update_where k (j ∷ jobs) (inr h) = inr (Any-update_where k jobs h)

  update_where-Recorded :
      (jobs : List JobRow) (r : ResultRow)
      → All (λ j. p j ≡ true → j.state ≢ completed) jobs
      → Recorded jobs r
      → Recorded (update_where p f jobs) r
  update_where-Recorded jobs r opened (here, done) = (
    Any-update_where r.job_id jobs here,
    All-update_where (λ j. j.job_id ≡ r.job_id → j.state ≡ completed) _ p f jobs
        (All-map (λ j o h q e. absurd (o q (h (sym (keeps j) ∙ e)))) jobs opened)
        (All-every _ jobs (λ j h _. h)) done,
  )

  pub update_where-IsConsistent :
      (jobs : List JobRow) (results : List ResultRow)
      → All (λ j. p j ≡ true → j.state ≢ completed) jobs
      → All (λ j. IsSound j → p j ≡ true → IsSound (f j)) jobs
      → IsConsistent jobs results
      → IsConsistent (update_where p f jobs) results
  update_where-IsConsistent jobs results opened sound c = record {
    sound = All-update_where IsSound IsSound p f jobs sound (All-every _ jobs (λ j h _. h)) c.sound;
    unique_ids =
        subst Distinct (sym (map-update_where (λ j. j.job_id) p f jobs keeps)) c.unique_ids;
    recorded = All-map (λ r h. update_where-Recorded jobs r opened h) results c.recorded;
    once = c.once;
  }

-- Rows that carry the id of one row are that row.
pub by_id :
    (P : JobRow → Type 0) (jobs : List JobRow) (j : JobRow) (id : String)
    → Distinct (map (λ k. k.job_id) jobs)
    → In j jobs
    → j.job_id ≡ id
    → P j
    → All (λ k. (k.job_id == id) ≡ true → P k) jobs
by_id P jobs j id d i q h =
    All-map (λ k same e. subst P (sym (same ((eq_iff k.job_id id).0 e ∙ sym q))) h) jobs
      (All-same_key (λ k. k.job_id) jobs j d i)
