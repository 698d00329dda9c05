-- ===== src/Tasks/Schedule.antt =====
-- hub/internal/tasks/tasks.go: the clock follows the table.
use homedash.Prelude.{
  ℕ, ◌≡◌, refl, sym, ap, ◌∙◌, String, Bool, true, false, ◌&&◌, Option, none, some, List, [], ◌∷◌,
  ◌==◌, ==_iff, if◌then◌else◌, arith, subst,
}
use homedash.Hosts.{Host}
use homedash.Tasks.Table.{Writes, DistinctIds, find_task-keep, find_task-id, save_task-Writes}
use homedash.Tasks.{
  Task, Run, Scheduler, validate, find_task, save_task, entry_of, without_entry, schedule, save,
  save_valid, store_task, reschedule, delete, start, has_host, host_found,
}

-- What the clock should have for a row.
abbrev pub wanted : (String → Bool) → Option Task → Option String
wanted parses none = none
wanted parses (some t) = if t.enabled && parses t.schedule then some t.schedule else none

-- The clock has each task of the table as the table has it, and no other.
abbrev pub InStep : (String → Bool) → Scheduler → Type 0
InStep parses s = (id : ℕ) → entry_of id s.entries ≡ wanted parses (find_task id s.tasks)

entry_of-without :
    (id k : ℕ) (es : List (ℕ × String))
    → entry_of id (without_entry k es) ≡ (if id == k then none else entry_of id es)
unfolding entry_of
entry_of-without id k [] = ground arith
entry_of-without id k (e ∷ es) = let i = entry_of-without id k es in ground arith

entry_of-schedule :
    (parses : String → Bool) (t : Task) (s : Scheduler) (id : ℕ)
    → entry_of id (schedule parses t s).entries
      ≡ (if id == t.id then wanted parses (some t) else entry_of id s.entries)
unfolding schedule entry_of
entry_of-schedule parses t s id = let e = entry_of-without id t.id s.entries in ground arith

wanted-dropped :
    (parses : String → Bool) (b : Bool) (t : Option Task) (e : Option String)
    → e ≡ wanted parses t
    → (if b then none else e) ≡ wanted parses (if b then none else t)
wanted-dropped parses true t e p = refl
wanted-dropped parses false t e p = p

delete-InStep :
    (parses : String → Bool) (id : ℕ) (s : Scheduler)
    → InStep parses s
    → InStep parses (delete id s)
unfolding delete
delete-InStep parses k s v id =
    rw (entry_of-without id k s.entries, find_task-keep id k s.tasks)
      (wanted-dropped parses (id == k) (find_task id s.tasks) (entry_of id s.entries) (v id))

wanted-picked :
    (parses : String → Bool) (b : Bool) (t : Task) (e : Option String) (u : Option Task)
    → (b ≡ true → u ≡ some t)
    → (b ≡ false → e ≡ wanted parses u)
    → (if b then wanted parses (some t) else e) ≡ wanted parses u
wanted-picked parses true t e u same other = ap (wanted parses) (sym (same refl))
wanted-picked parses false t e u same other = other refl

wanted-unsaved :
    (parses : String → Bool) (b : Bool) (e : Option String) (u v : Option Task)
    → e ≡ wanted parses u
    → (b ≡ false → v ≡ u)
    → (b ≡ true → v ≡ u)
    → e ≡ wanted parses v
wanted-unsaved parses true e u v p other same = p ∙ ap (wanted parses) (sym (same refl))
wanted-unsaved parses false e u v p other same = p ∙ ap (wanted parses) (sym (other refl))

-- The clock after a statement, the row it gives being `o`.
reschedule-InStep :
    (parses : String → Bool) (s : Scheduler) (r : ℕ × List Task)
    → InStep parses s
    → Writes s.tasks r
    → (o : Option Task) → find_task r.0 r.1 ≡ o
    → InStep parses (reschedule parses o (record s { tasks = r.1 })).1
unfolding schedule
reschedule-InStep parses s r v w none found id =
    wanted-unsaved parses (id == r.0) (entry_of id s.entries) (find_task id s.tasks)
      (find_task id r.1) (v id) (w.0 id)
      (λ h. let e : id ≡ r.0 = (==_iff id r.0).0 h in rw (e) (found ∙ sym (w.1 found)))
reschedule-InStep parses s r v w (some t) found id =
    let known = find_task-id r.0 r.1 t found in
    entry_of-schedule parses t (record s { tasks = r.1 }) id
    ∙ wanted-picked parses (id == t.id) t (entry_of id s.entries) (find_task id r.1)
        (λ h. let e : id ≡ r.0 = (==_iff id t.id).0 h ∙ known in rw (e) found)
        (λ h. v id ∙ ap (wanted parses) (sym (w.0 id (subst (λ k. (id == k) ≡ false) known h))))

==_sym : (a b : ℕ) → (a == b) ≡ (b == a)
==_sym a b = ground arith

abbrev latest : (String → Bool) → Option Task → Option String → Option String
latest parses none e = e
latest parses (some t) e = wanted parses (some t)

latest-started :
    (parses : String → Bool) (b : Bool) (t : Task) (u : Option Task) (e : Option String)
    → (b ≡ true → u ≡ none)
    → latest parses u (if b then wanted parses (some t) else e)
      ≡ latest parses (if b then some t else u) e
latest-started parses true t u e h = rw (h refl) refl
latest-started parses false t u e h = refl

entry_of-start :
    (parses : String → Bool) (ts : List Task) (s : Scheduler) (id : ℕ)
    → DistinctIds ts
    → entry_of id (start parses ts s).entries
      ≡ latest parses (find_task id ts) (entry_of id s.entries)
unfolding start find_task
entry_of-start parses [] s id d = refl
entry_of-start parses (t ∷ ts) s id d =
    entry_of-start parses ts (schedule parses t s) id d.1
    ∙ rw (entry_of-schedule parses t s id, ==_sym t.id id)
        (latest-started parses (id == t.id) t (find_task id ts) (entry_of id s.entries)
          (λ h. let e : id ≡ t.id = (==_iff id t.id).0 h in rw (e) d.0))

start-tasks :
    (parses : String → Bool) (ts : List Task) (s : Scheduler) → (start parses ts s).tasks ≡ s.tasks
unfolding start schedule
start-tasks parses [] s = refl
start-tasks parses (t ∷ ts) s = start-tasks parses ts (schedule parses t s)

save_valid-InStep :
    (parses : String → Bool) (hosts : List Host) (o : Option Task) (s : Scheduler)
    → InStep parses s
    → InStep parses (save_valid parses hosts o s).1
save_valid-InStep parses hosts none s v = v
save_valid-InStep parses hosts (some t) s v =
    elim (host_found hosts t.host_id && has_host hosts t.host_id)
      as (λ b. InStep parses (if b then store_task parses t s else (none, s)).1) [
        | false ↦ v
        | true ↦
            reschedule-InStep parses s (save_task t s.tasks) v (save_task-Writes t s.tasks)
              (find_task (save_task t s.tasks).0 (save_task t s.tasks).1) refl
      ]

pub data Call : Type 0 where
  call_save : List Host → Task → Call
  call_delete : ℕ → Call

unfoldable pub perform : (String → Bool) → List Call → Scheduler → Scheduler
perform parses [] s = s
perform parses (call_save hosts t ∷ calls) s = perform parses calls (save parses hosts t s).1
perform parses (call_delete id ∷ calls) s = perform parses calls (delete id s)

perform-InStep :
    (parses : String → Bool) (calls : List Call) (s : Scheduler)
    → InStep parses s
    → InStep parses (perform parses calls s)
unfolding perform save
perform-InStep parses [] s v = v
perform-InStep parses (call_save hosts t ∷ calls) s v =
    perform-InStep parses calls (save parses hosts t s).1
      (save_valid-InStep parses hosts (validate parses t) s v)
perform-InStep parses (call_delete id ∷ calls) s v =
    perform-InStep parses calls (delete id s) (delete-InStep parses id s v)

-- The table as the program finds it when it starts.
abbrev pub at_rest : List Task → List Run → Scheduler
at_rest rows runs = record { tasks = rows; runs = runs; entries = []; notes = [] }

latest-none : (parses : String → Bool) (u : Option Task) → latest parses u none ≡ wanted parses u
latest-none parses none = refl
latest-none parses (some t) = refl

-- Started on a table whose ids differ, and after any sequence of saves and deletions, the clock holds
-- for each id the schedule of the table's task, if that is enabled and its schedule parses, and
-- nothing otherwise.
pub clock-InStep :
    (parses : String → Bool) (rows : List Task) (runs : List Run) (calls : List Call)
    → DistinctIds rows
    → InStep parses (perform parses calls (start parses rows (at_rest rows runs)))
unfolding entry_of
clock-InStep parses rows runs calls d =
    perform-InStep parses calls (start parses rows (at_rest rows runs)) (λ id.
      entry_of-start parses rows (at_rest rows runs) id d
      ∙ latest-none parses (find_task id rows)
      ∙ ap (λ ts. wanted parses (find_task id ts))
          (sym (start-tasks parses rows (at_rest rows runs))))
