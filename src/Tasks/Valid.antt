-- ===== src/Tasks/Valid.antt =====
-- hub/internal/tasks/tasks.go: what `Validate` and `Save` accept.
use homedash.Prelude.{
  subst, ◌≡◌, refl, sym, ap, ◌∙◌, String, Bool, true, false, not, ◌&&◌, Option, none, some, List,
  [], ◌∷◌, ◌==◌, All, All-append, All-map, All-keep, str_eq, if◌then◌else◌, if-either, if-none-some,
  arith,
}
use homedash.Prelude.Int.{pos, leb_ℤ, ltb_ℤ}
use homedash.Prelude.Text.{trim_space}
use homedash.Hosts.{Host}
use homedash.Gate.{check}
use homedash.Tasks.Schedule.{Call, call_save, call_delete, perform}
use homedash.Tasks.{
  Task, Scheduler, validate, with_timeout, unless_refused, default_timeout, find_task, next_id,
  insert_task, update_task, written, has_host, host_found, delete, save, save_valid, store_task,
  reschedule, schedule, save_task,
}

-- What a stored task has.
abbrev pub Sound : (String → Bool) → Task → Type 0
Sound parses t =
    (str_eq (trim_space t.name) "" ≡ false)
    × (str_eq (trim_space t.command) "" ≡ false)
    × (parses t.schedule ≡ true)
    × (check t.command ≡ none)
    × (ltb_ℤ (pos 0) t.timeout ≡ true)
    × (leb_ℤ t.timeout (pos 86400) ≡ true)

unless_refused-some :
    (o : Option String) (t u : Task) → unless_refused o t ≡ some u → (o ≡ none) × (t ≡ u)
unless_refused-some none t u h = ground arith
unless_refused-some (some why) t u h = ground arith

with_timeout-same :
    (t : Task)
    → ((with_timeout t).name ≡ t.name)
      × ((with_timeout t).command ≡ t.command)
      × ((with_timeout t).schedule ≡ t.schedule)
with_timeout-same t =
    if-either (λ u. (u.name ≡ t.name) × (u.command ≡ t.command) × (u.schedule ≡ t.schedule))
      (leb_ℤ t.timeout (pos 0)) (record t { timeout = default_timeout }) t (refl, refl, refl)
      (refl, refl, refl)

with_timeout-bounds :
    (t : Task)
    → ltb_ℤ (pos 86400) t.timeout ≡ false
    → (ltb_ℤ (pos 0) (with_timeout t).timeout ≡ true)
      × (leb_ℤ (with_timeout t).timeout (pos 86400) ≡ true)
with_timeout-bounds t h = ground arith

not-false : (b : Bool) → not b ≡ false → b ≡ true
not-false b h = ground arith

validate-Sound : (parses : String → Bool) (t u : Task) → validate parses t ≡ some u → Sound parses u
unfolding validate
validate-Sound parses t u h =
    let timed = unless_refused (check t.command) (with_timeout t) in
    let bounded = if ltb_ℤ (pos 86400) t.timeout then none else timed in
    let parsed = if not (parses t.schedule) then none else bounded in
    let commanded = if str_eq (trim_space t.command) "" then none else parsed in
    let a = if-none-some (str_eq (trim_space t.name) "") commanded u h in
    let b = if-none-some (str_eq (trim_space t.command) "") parsed u a.1 in
    let c = if-none-some (not (parses t.schedule)) bounded u b.1 in
    let d = if-none-some (ltb_ℤ (pos 86400) t.timeout) timed u c.1 in
    let e = unless_refused-some (check t.command) (with_timeout t) u d.1 in
    let f = with_timeout-same t in
    let g = with_timeout-bounds t d.0 in
    subst (Sound parses) e.1 (
      ap (λ x. str_eq (trim_space x) "") f.0 ∙ a.0,
      ap (λ x. str_eq (trim_space x) "") f.1 ∙ b.0,
      ap parses f.2 ∙ not-false (parses t.schedule) c.0,
      ap check f.1 ∙ e.0,
      g.0,
      g.1,
    )

reschedule-tasks :
    (parses : String → Bool) (o : Option Task) (s : Scheduler)
    → (reschedule parses o s).1.tasks ≡ s.tasks
unfolding schedule
reschedule-tasks parses none s = refl
reschedule-tasks parses (some t) s = refl

save_task-Sound :
    (parses : String → Bool) (t : Task) (ts : List Task)
    → Sound parses t
    → All (Sound parses) ts
    → All (Sound parses) (save_task t ts).1
unfolding save_task
save_task-Sound parses t ts v vs =
    if-either (λ r. All (Sound parses) r.1) (t.id == 0) (insert_task t ts) (update_task t ts)
      (All-append (Sound parses) ts (record t { id = next_id ts; failing = false } ∷ []) vs (v, tt))
      (All-map (Sound parses) (λ old. if old.id == t.id then written t old else old)
        (λ old w. if-either (Sound parses) (old.id == t.id) (written t old) old v w) ts vs)

save_valid-Sound :
    (parses : String → Bool) (hosts : List Host) (o : Option Task) (s : Scheduler)
    → ((u : Task) → o ≡ some u → Sound parses u)
    → All (Sound parses) s.tasks
    → All (Sound parses) (save_valid parses hosts o s).1.tasks
save_valid-Sound parses hosts none s v vs = vs
save_valid-Sound parses hosts (some t) s v vs =
    if-either (λ r. All (Sound parses) r.1.tasks)
      (host_found hosts t.host_id && has_host hosts t.host_id) (store_task parses t s) (none, s)
      (subst (All (Sound parses))
        (sym (
          reschedule-tasks parses (find_task (save_task t s.tasks).0 (save_task t s.tasks).1)
            (record s { tasks = (save_task t s.tasks).1 })))
        (save_task-Sound parses t s.tasks (v t refl) vs))
      vs

-- After any sequence of saves and deletions, every task of the table is one that Save accepts, if every
-- task was before: it has a name and a command, its schedule parses, the gate lets its command through,
-- and its timeout is between a second and a day.
pub perform-Sound :
    (parses : String → Bool) (calls : List Call) (s : Scheduler)
    → All (Sound parses) s.tasks
    → All (Sound parses) (perform parses calls s).tasks
unfolding perform save delete
perform-Sound parses [] s vs = vs
perform-Sound parses (call_save hosts t ∷ calls) s vs =
    perform-Sound parses calls (save parses hosts t s).1
      (save_valid-Sound parses hosts (validate parses t) s (validate-Sound parses t) vs)
perform-Sound parses (call_delete id ∷ calls) s vs =
    perform-Sound parses calls (delete id s)
      (All-keep (Sound parses) (λ t. not (t.id == id)) s.tasks vs)
