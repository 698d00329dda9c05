-- ===== src/Tasks/Alone.antt =====
-- hub/internal/tasks/tasks.go: `Fire`'s guard, by which the fires of one task never overlap. The clock
-- and a person fire tasks in any order, and each fire ends when its machines have answered.
use homedash.Prelude.{
  ℕ, ◌≡◌, refl, ap, ◌∙◌, Bool, true, false, not, List, [], ◌∷◌, ◌==◌, if◌then◌else◌, any, keep,
  subst, if-either, arith,
}
use homedash.Prelude.Marks.{distinct, remove_one, remove_one-keep, distinct-keep}

abbrev pub is_running : ℕ → List ℕ → Bool
is_running id = any (λ x. x == id)

-- The head of `Fire`: whether the fire goes on, and the tasks running.
unfoldable pub begin_fire : ℕ → List ℕ → Bool × List ℕ
begin_fire id running = if is_running id running then (false, running) else (true, id ∷ running)

-- Its deferred end.
unfoldable pub end_fire : ℕ → List ℕ → List ℕ
end_fire id = keep (λ x. not (x == id))

pub data Event : Type 0 where
  fires : ℕ → Event
  ends : ℕ → Event

abbrev pub put_to_work : ℕ → List ℕ → Bool × List ℕ → List ℕ × List ℕ
put_to_work id at_work (false, running) = (running, at_work)
put_to_work id at_work (true, running) = (running, id ∷ at_work)

-- The marks, and the tasks of the fires at work: an end is the end of a fire that is at work.
abbrev pub step : Event → List ℕ × List ℕ → List ℕ × List ℕ
step (fires id) (running, at_work) = put_to_work id at_work (begin_fire id running)
step (ends id) (running, at_work) =
    if is_running id at_work
    then (end_fire id running, remove_one id at_work)
    else (running, at_work)

abbrev pub run : List Event → List ℕ × List ℕ → List ℕ × List ℕ
run [] s = s
run (e ∷ es) s = run es (step e s)

abbrev Apart : List ℕ × List ℕ → Type 0
Apart (running, at_work) = (running ≡ at_work) × (distinct at_work ≡ true)

begin_fire-Apart :
    (id : ℕ) (at_work : List ℕ)
    → distinct at_work ≡ true
    → Apart (put_to_work id at_work (begin_fire id at_work))
unfolding begin_fire
begin_fire-Apart id at_work d = ground arith

end_fire-Apart :
    (id : ℕ) (at_work : List ℕ)
    → distinct at_work ≡ true
    → Apart (end_fire id at_work, remove_one id at_work)
unfolding end_fire
end_fire-Apart id at_work d = (
  remove_one-keep id at_work d,
  subst (λ xs. distinct xs ≡ true) (remove_one-keep id at_work d) (distinct-keep id at_work d),
)

step-Apart : (e : Event) (s : List ℕ × List ℕ) → Apart s → Apart (step e s)
step-Apart (fires id) (running, at_work) (e, d) = rw (e) (begin_fire-Apart id at_work d)
step-Apart (ends id) (running, at_work) (e, d) = rw (e) (
    if-either Apart (is_running id at_work) (end_fire id at_work, remove_one id at_work)
      (at_work, at_work) (end_fire-Apart id at_work d) (refl, d))

run-Apart : (es : List Event) (s : List ℕ × List ℕ) → Apart s → Apart (run es s)
run-Apart [] s v = v
run-Apart (e ∷ es) s v = run-Apart es (step e s) (step-Apart e s v)

begin_fire-is_running :
    (id : ℕ) (running : List ℕ) → (begin_fire id running).0 ≡ not (is_running id running)
unfolding begin_fire
begin_fire-is_running id running = ground arith

-- Whatever the order in which tasks are fired and fires end, no task has two fires at work, and a fire
-- goes on exactly when its task has none at work.
pub fires_apart :
    (es : List Event) (id : ℕ)
    → (distinct (run es ([], [])).1 ≡ true)
      × ((begin_fire id (run es ([], [])).0).0 ≡ not (is_running id (run es ([], [])).1))
fires_apart es id =
    let v = run-Apart es ([], []) (refl, refl) in
    (v.1, begin_fire-is_running id (run es ([], [])).0 ∙ ap (λ xs. not (is_running id xs)) v.0)
