-- ===== src/Contract/Issues.antt =====
-- packages/contracts/src/decision/v1: how the checks collect issues. A check that pushes an issue
-- is the list of the issues that it pushes.
use Prim.Native.String.{◌++◌ as ◌+text◌}
use choice_mind.Prelude.{
  ℕ, suc, String, ◌≡◌, refl, sym, ◌↔◌, inl, inr, Bool, true, false, not, List, [], ◌∷◌, ◌++◌, map,
  arith, if◌then◌else◌, flat_map_from, append-eq-nil, All,
}
use choice_mind.Js.Equality.{text_equality}
use choice_mind.Js.Sets.{In, Distinct, has, has_iff, add, In-add}
use choice_mind.Contract.Types.{PathPart, name, index, ContractIssue}

abbrev pub issue : List PathPart → String → ContractIssue
issue path message = record { path = path; message = message }

abbrev pub decision_path : String → List PathPart
decision_path field = name "bundle" ∷ name "decision" ∷ name field ∷ []

-- `if (test) { issues.push({ path, message }); }`
unfoldable pub issue_if : Bool → List PathPart → String → List ContractIssue
issue_if test path message = if test then issue path message ∷ [] else []

pub issue_if-eq-nil :
    (test : Bool) (path : List PathPart) (message : String)
    → (issue_if test path message ≡ []) ↔ (test ≡ false)
unfolding issue_if
issue_if-eq-nil true path message = (λ h. cc, λ h. cc)
issue_if-eq-nil false path message = (λ h. refl, λ h. refl)

-- The predicate holds of every entry, at the index that counts on from the given number.
abbrev pub AllFrom {ℓ} : {A : Type ℓ} → (ℕ → A → Type 0) → ℕ → List A → Type 0
AllFrom P i [] = Unit {0}
AllFrom P i (x ∷ xs) = P i x × AllFrom P (suc i) xs

pub flat_map_from-eq-nil :
    {A B : Type 0} (f : ℕ → A → List B) (i : ℕ) (xs : List A)
    → (flat_map_from f i xs ≡ []) ↔ AllFrom (λ j x. f j x ≡ []) i xs
flat_map_from-eq-nil f i [] = (λ h. tt, λ h. refl)
flat_map_from-eq-nil f i (x ∷ xs) =
    ground
      (arith, append-eq-nil (f i x) (flat_map_from f (suc i) xs), flat_map_from-eq-nil f (suc i) xs)

pub AllFrom-map :
    {A : Type 0} {P Q : ℕ → A → Type 0} (f : (j : ℕ) (x : A) → P j x → Q j x) (i : ℕ) (xs : List A)
    → AllFrom P i xs
    → AllFrom Q i xs
AllFrom-map f i [] h = tt
AllFrom-map f i (x ∷ xs) (h, t) = (f i x h, AllFrom-map f (suc i) xs t)

module _ {Item : Type 0} (get_id : Item → String) (collection_path : List PathPart)
    (id_field entity_name : String) where
  -- The loop of `collectUniqueIds`, at an index and with the ids seen so far.
  unique_id_issues : List String → ℕ → List Item → List ContractIssue
  unique_id_issues seen i [] = []
  unique_id_issues seen i (item ∷ items) =
      issue_if (has seen (get_id item)) (collection_path ++ index i ∷ name id_field ∷ [])
        (entity_name +text " ID 在结果中必须唯一")
      ++ unique_id_issues (add seen (get_id item)) (suc i) items

  unfoldable pub collect_unique_ids : List Item → List ContractIssue
  unfolding unique_id_issues
  collect_unique_ids items = unique_id_issues [] 0 items

  fresh_add :
      (seen : List String) (a : String) (items : List Item)
      → All (λ x. ¬ In (get_id x) (add seen a)) items
        ↔ (All (λ x. ¬ In (get_id x) seen) items × (¬ In a (map get_id items)))
  fresh_add seen a [] = (λ h. (tt, λ n. n), λ h. tt)
  fresh_add seen a (x ∷ items) =
      let later = fresh_add seen a items in
      let first = In-add seen a (get_id x) in
      (
        λ (h, t). (
          (λ n. h (first.1 (inl n)), (later.0 t).0),
          elim [ inl e ↦ h (first.1 (inr (sym e))) | inr n ↦ (later.0 t).1 n ],
        ),
        λ ((h, t), n). (
          λ m. elim (first.0 m) [ inl k ↦ h k | inr e ↦ n (inl (sym e)) ],
          later.1 (t, λ k. n (inr k)),
        ),
      )

  unique_id_issues-eq-nil :
      (seen : List String) (i : ℕ) (items : List Item)
      → (unique_id_issues seen i items ≡ [])
        ↔ (All (λ x. ¬ In (get_id x) seen) items × Distinct (map get_id items))
  unfolding unique_id_issues
  unique_id_issues-eq-nil seen i [] = (λ h. (tt, tt), λ h. refl)
  unique_id_issues-eq-nil seen i (item ∷ items) =
      let rest = unique_id_issues (add seen (get_id item)) (suc i) items in
      ground (
        arith,
        append-eq-nil
            (issue_if (has seen (get_id item)) (collection_path ++ index i ∷ name id_field ∷ [])
              (entity_name +text " ID 在结果中必须唯一"))
            rest,
        issue_if-eq-nil (has seen (get_id item)) (collection_path ++ index i ∷ name id_field ∷ [])
            (entity_name +text " ID 在结果中必须唯一"),
        has_iff seen (get_id item),
        fresh_add seen (get_id item) items,
        unique_id_issues-eq-nil (add seen (get_id item)) (suc i) items,
      )

  none_seen : (items : List Item) → All (λ x. ¬ In (get_id x) []) items
  none_seen [] = tt
  none_seen (x ∷ items) = (λ n. n, none_seen items)

  -- The check that ids are unique raises no issue exactly when they are distinct.
  pub collect_unique_ids-eq-nil :
      (items : List Item) → (collect_unique_ids items ≡ []) ↔ Distinct (map get_id items)
  unfolding collect_unique_ids
  collect_unique_ids-eq-nil items =
      let (from, to) = unique_id_issues-eq-nil [] 0 items in
      (λ h. (from h).1, λ d. to (none_seen items, d))

-- The parts of a list of checks that raised nothing.
pub nil-parts : {A : Type 0} (xs ys : List A) → xs ++ ys ≡ [] → (xs ≡ []) × (ys ≡ [])
nil-parts xs ys = (append-eq-nil xs ys).0

-- A check that raised nothing found its test false; one that tests a negation found it true.
pub issue_if-nil :
    (test : Bool) (path : List PathPart) (message : String)
    → issue_if test path message ≡ []
    → test ≡ false
issue_if-nil test path message = (issue_if-eq-nil test path message).0

pub issue_if-not-nil :
    (test : Bool) (path : List PathPart) (message : String)
    → issue_if (not test) path message ≡ []
    → test ≡ true
issue_if-not-nil true path message h = refl
issue_if-not-nil false path message h = cc (issue_if-nil true path message h)

pub nil-join : {A : Type 0} (xs ys : List A) → xs ≡ [] → ys ≡ [] → xs ++ ys ≡ []
nil-join xs ys h k = (append-eq-nil xs ys).1 (h, k)
