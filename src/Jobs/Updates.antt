-- ===== src/Jobs/Updates.antt =====
-- How the statements on the jobs table act on the rows, one lemma for each shape of statement.
use mathlib.Core.Path.{subst}
use homedash.Prelude.{
  Bool-cases, inl, inr, ℕ, ◌≤◌, ◌<◌, ◌≡◌, refl, Bool, true, false, none, some, [], ◌∷◌, arith, ◌==◌,
  if◌then◌else◌, keep, All,
}
use homedash.Jobs.{Job}
use homedash.Jobs.Table.{Table, find_job, update_where, next_id}

-- After an UPDATE each row has `R`, if the picked rows get it and the others have it.
pub update_where-All {κ μ} :
    (P : Job → Type κ) (R : Job → Type μ) (p : Job → Bool) (f : Job → Job) (rows : Table)
    → ((j : Job) → p j ≡ true → P j → R (f j))
    → ((j : Job) → p j ≡ false → P j → R j)
    → All P rows
    → All R (update_where p f rows)
unfolding update_where
update_where-All P R p f [] hit miss a = tt
update_where-All P R p f (j ∷ js) hit miss a =
    (step (p j) refl, update_where-All P R p f js hit miss a.1)
  where
    step : (b : Bool) → p j ≡ b → R (if b then f j else j)
    step true e = hit j e a.0
    step false e = miss j e a.0

module _ {κ} (P : Job → Type κ) where
  keep_row-All :
      (j : Job) (kept : Table)
      → P j
      → All P kept
      → (b : Bool) → All P (if b then j ∷ kept else kept)
  keep_row-All j kept h a true = (h, a)
  keep_row-All j kept h a false = a

  pub keep-All : (p : Job → Bool) (rows : Table) → All P rows → All P (keep p rows)
  keep-All p [] a = tt
  keep-All p (j ∷ js) a = keep_row-All j (keep p js) a.0 (keep-All p js a.1) (p j)

  -- A row that is found has what every row has.
  pub find_job-All :
      (id : ℕ) (rows : Table) {j : Job} → find_job id rows ≡ some j → All P rows → P j
  unfolding find_job
  find_job-All id [] e a = cc
  find_job-All id (k ∷ ks) {j} e a = elim (Bool-cases (k.id == id)) [
    | inl hit ↦ subst P (ground arith) a.0
    | inr miss ↦ find_job-All id ks (ground arith) a.1
  ]

-- Ids fall strictly along the rows: the order of the list is the order of the rowids.
abbrev pub Descending : ℕ → Table → Type 0
Descending n [] = Unit {0}
Descending n (j ∷ js) = (j.id < n) × Descending j.id js

pub Descending-mono : (m n : ℕ) (rows : Table) → m ≤ n → Descending m rows → Descending n rows
Descending-mono m n [] h d = tt
Descending-mono m n (j ∷ js) h d = (omega arith, d.1)

pub Descending-keep :
    (p : Job → Bool) (n : ℕ) (rows : Table) → Descending n rows → Descending n (keep p rows)
Descending-keep p n [] d = tt
Descending-keep p n (j ∷ js) d =
    ground (arith, Descending-keep p j.id js d.1, Descending-mono j.id n (keep p js))

pub Descending-update_where :
    (p : Job → Bool) (f : Job → Job) (n : ℕ) (rows : Table)
    → ((j : Job) → (f j).id ≡ j.id)
    → Descending n rows
    → Descending n (update_where p f rows)
unfolding update_where
Descending-update_where p f n [] keeps d = tt
Descending-update_where p f n (j ∷ js) keeps d =
    ground (arith, keeps j, Descending-update_where p f j.id js keeps d.1)

-- Rows that the condition does not pick stay.
pub update_where_none :
    (p : Job → Bool) (f : Job → Job) (rows : Table)
    → All (λ j. p j ≡ false) rows
    → update_where p f rows ≡ rows
unfolding update_where
update_where_none p f [] a = refl
update_where_none p f (j ∷ js) a = rw (a.0, update_where_none p f js a.1)

-- Above the largest id there is no row.
pub find_job_above :
    (id n : ℕ) (rows : Table) → Descending n rows → n ≤ id → find_job id rows ≡ none
unfolding find_job
find_job_above id n [] d h = refl
find_job_above id n (j ∷ js) d h = ground (arith, find_job_above id j.id js d.1)

-- In a table with distinct ids, a condition that implies an id and fails on that id's row picks none.
pub picks_none :
    (id n : ℕ) (p : Job → Bool) (rows : Table) {j : Job}
    → Descending n rows
    → ((k : Job) → p k ≡ true → k.id ≡ id)
    → find_job id rows ≡ some j
    → p j ≡ false
    → All (λ k. p k ≡ false) rows
unfolding find_job
picks_none id n p [] d only e miss = tt
picks_none id n p (k ∷ ks) {j} d only e miss = elim (Bool-cases (k.id == id)) [
  | inl hit ↦ (subst (λ x. p x ≡ false) (ground arith) miss, below ks k.id d.1 (ground arith))
  | inr other ↦ (ground (arith, only k), picks_none id k.id p ks d.1 only (ground arith) miss)
]
  where
    below : (rows : Table) (m : ℕ) → Descending m rows → m ≤ id → All (λ x. p x ≡ false) rows
    below [] m d h = tt
    below (x ∷ xs) m d h = (ground (arith, only x), below xs x.id d.1 (omega arith))

-- Ids below a bound are below the table's own.
pub Descending-next_id : (n : ℕ) (rows : Table) → Descending n rows → Descending (next_id rows) rows
unfolding next_id
Descending-next_id n [] d = tt
Descending-next_id n (j ∷ js) d = (omega arith, d.1)

none_at :
    (id m : ℕ) (j : Job) (rows : Table)
    → Descending m rows
    → m ≤ id
    → All (λ k. (k.id == id) ≡ true → k ≡ j) rows
none_at id m j [] d h = tt
none_at id m j (x ∷ xs) d h = (λ e. absurd (ground arith), none_at id x.id j xs d.1 (omega arith))

-- Only the row that is found has the id.
pub only_row :
    (id n : ℕ) (rows : Table) {j : Job}
    → Descending n rows
    → find_job id rows ≡ some j
    → All (λ k. (k.id == id) ≡ true → k ≡ j) rows
unfolding find_job
only_row id n [] d e = tt
only_row id n (k ∷ ks) {j} d e = elim (Bool-cases (k.id == id)) [
  | inl hit ↦ (λ _. ground arith, none_at id k.id j ks d.1 (ground arith))
  | inr other ↦ (λ hit. cc, only_row id k.id ks d.1 (ground arith))
]
