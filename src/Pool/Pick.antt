-- ===== src/Pool/Pick.antt =====
-- hub/internal/pool/pool.go: `pick`. The world is what the router reads while it looks: the hosts,
-- the switches, and what each machine says it holds (`tags`: none is an error).
use Prim.Native.String
use homedash.Prelude.{
  ℕ, zero, suc, String, Bool, true, false, not, ◌&&◌, ◌||◌, Option, none, some, List, [], ◌∷◌, ltb,
  str_eq, if◌then◌else◌, any, length,
}
use homedash.Hosts.{Host, is_online}
use homedash.Pool.{Pool, take}

pub record World : Type 0 where
  pub now : ℕ
  pub hosts : Option (List Host)
  pub disabled : ℕ → Bool
  pub tags : ℕ → Option (List String)

abbrev pub with_latest : String → String
with_latest model = String.◌++◌ model ":latest"

-- `hasModel`.
unfoldable pub has_model : List String → String → Bool
has_model names model = any (λ m. str_eq m model || str_eq m (with_latest model)) names

-- Why a request went where it went, or nowhere: the text of a decision.
pub data Reason : Type 0 where
  conversation_home : Reason
  only_machine_free : Reason
  was_free_and_holds : String → Reason
  busy : Reason
  nothing_holds : Reason
  hosts_unavailable : Reason
  pool_was_busy : Reason

abbrev pub is_busy_reason : Reason → Bool
is_busy_reason busy = true
is_busy_reason _ = false

abbrev pub holds : World → String → Host → Bool
holds w model h = elim (w.tags h.id) [ none ↦ false | some names ↦ has_model names model ]

-- The tests of the loop that `continue` past a machine.
abbrev pub eligible : World → String → Host → Bool
eligible w model h = h.ollama && is_online h.status && not (w.disabled h.id) && holds w model h

free_reason : ℕ → ℕ → Host → Reason
free_reason holders total h =
    if ltb 1 holders || ltb 1 total then was_free_and_holds h.name else only_machine_free

none_reason : Bool → ℕ → Reason
none_reason true holders = busy
none_reason false zero = nothing_holds
none_reason false (suc n) = busy

-- A machine that was taken ends the loop; one that was serving is counted, and the loop goes on.
taken :
    World
    → ℕ
    → ℕ
    → Host
    → Option Host × Pool
    → (Option Host × Reason) × Pool
    → (Option Host × Reason) × Pool
unfolding free_reason
taken w total holders h (none, p) past = past
taken w total holders h (some got, p) past = ((some got, free_reason holders total h), p)

unfoldable pub pick_from :
    World → String → ℕ → List Host → Bool → ℕ → Pool → (Option Host × Reason) × Pool
unfolding taken none_reason free_reason
pick_from w model total [] busy_one holders p = ((none, none_reason busy_one holders), p)
pick_from w model total (h ∷ hs) busy_one holders p =
    let skip = pick_from w model total hs busy_one holders p in
    let past = pick_from w model total hs true (suc holders) p in
    if eligible w model h then taken w total (suc holders) h (take h p) past else skip

unfoldable pub pick : World → String → Pool → (Option Host × Reason) × Pool
unfolding pick_from
pick w model p = elim w.hosts [
  | none ↦ ((none, hosts_unavailable), p)
  | some hosts ↦ pick_from w model (length hosts) hosts false 0 p
]
