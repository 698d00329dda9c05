-- ===== src/Tasks/Table.antt =====
-- hub/internal/tasks/tasks.go: reads of the tasks table after its statements.
use homedash.Prelude.{
  ℕ, ◌≤◌, ◌≡◌, refl, sym, ◌∙◌, Bool, true, false, not, Option, none, some, List, [], ◌∷◌, ◌++◌,
  ◌==◌, if◌then◌else◌, keep, map, arith,
}
use homedash.Tasks.{Task, find_task, next_id, insert_task, update_task, save_task, written}

pub find_task-keep :
    (id k : ℕ) (ts : List Task)
    → find_task id (keep (λ t. not (t.id == k)) ts) ≡ (if id == k then none else find_task id ts)
unfolding find_task
find_task-keep id k [] = ground arith
find_task-keep id k (t ∷ ts) = let i = find_task-keep id k ts in ground arith

abbrev pub DistinctIds : List Task → Type 0
DistinctIds [] = Unit {0}
DistinctIds (t ∷ ts) = (find_task t.id ts ≡ none) × DistinctIds ts

abbrev or_task : Option Task → Option Task → Option Task
or_task none u = u
or_task (some t) u = some t

or_task-if :
    (b : Bool) (t : Task) (o u : Option Task)
    → (if b then some t else or_task o u) ≡ or_task (if b then some t else o) u
or_task-if true t o u = refl
or_task-if false t o u = refl

find_task-next :
    (id : ℕ) (ts : List Task) (t : Task)
    → find_task id (ts ++ t ∷ []) ≡ or_task (find_task id ts) (if t.id == id then some t else none)
unfolding find_task
find_task-next id [] t = refl
find_task-next id (u ∷ ts) t =
    rw (find_task-next id ts t)
      (or_task-if (u.id == id) u (find_task id ts) (if t.id == id then some t else none))

find_task-fresh : (n : ℕ) (ts : List Task) → next_id ts ≤ n → find_task n ts ≡ none
unfolding find_task next_id
find_task-fresh n [] h = refl
find_task-fresh n (t ∷ ts) h = let i = find_task-fresh n ts in ground arith

-- A row that the UPDATE of `t` reached.
abbrev updated : Task → Option Task → Option Task
updated t none = none
updated t (some old) = some (if old.id == t.id then written t old else old)

find_task-update :
    (id : ℕ) (t : Task) (ts : List Task)
    → find_task id (map (λ old. if old.id == t.id then written t old else old) ts)
      ≡ updated t (find_task id ts)
unfolding find_task
find_task-update id t [] = refl
find_task-update id t (u ∷ ts) = let i = find_task-update id t ts in ground arith

pub find_task-id : (id : ℕ) (ts : List Task) (t : Task) → find_task id ts ≡ some t → t.id ≡ id
unfolding find_task
find_task-id id [] t h = ground arith
find_task-id id (u ∷ ts) t h = let i = find_task-id id ts t in ground arith

or_task-none : (o : Option Task) → or_task o none ≡ o
or_task-none none = refl
or_task-none (some t) = refl

or_task-some : (o : Option Task) (t : Task) → or_task o (some t) ≡ none → o ≡ none
or_task-some none t h = refl
or_task-some (some u) t h = ground arith

updated-none : (t : Task) (o : Option Task) → updated t o ≡ none → o ≡ none
updated-none t none h = refl
updated-none t (some u) h = ground arith

-- The row of another id stands as it was.
updated-other :
    (t : Task) (id : ℕ) (o : Option Task)
    → ((u : Task) → o ≡ some u → u.id ≡ id)
    → (id == t.id) ≡ false
    → updated t o ≡ o
updated-other t id none i h = refl
updated-other t id (some u) i h = let e = i u refl in ground arith

-- What a statement writes: the row of the id it gives, and no other.
abbrev pub Writes : List Task → ℕ × List Task → Type 0
Writes ts r =
    ((id : ℕ) → (id == r.0) ≡ false → find_task id r.1 ≡ find_task id ts)
    × (find_task r.0 r.1 ≡ none → find_task r.0 ts ≡ none)

insert-Writes : (t : Task) (ts : List Task) → Writes ts (insert_task t ts)
insert-Writes t ts = (
  (λ id h.
      let n = find_task-next id ts (record t { id = next_id ts; failing = false }) in ground arith),
  (λ h.
      let n = find_task-next (next_id ts) ts (record t { id = next_id ts; failing = false }) in
      ground arith),
)

update-Writes : (t : Task) (ts : List Task) → Writes ts (update_task t ts)
update-Writes t ts = (
  (λ id h. find_task-update id t ts ∙ updated-other t id (find_task id ts) (find_task-id id ts) h),
  (λ h. updated-none t (find_task t.id ts) (sym (find_task-update t.id t ts) ∙ h)),
)

pub save_task-Writes : (t : Task) (ts : List Task) → Writes ts (save_task t ts)
unfolding save_task
save_task-Writes t ts =
    elim (t.id == 0) as (λ b. Writes ts (if b then insert_task t ts else update_task t ts)) [
      | true ↦ insert-Writes t ts
      | false ↦ update-Writes t ts
    ]
