-- ===== src/Pool.antt =====
-- hub/internal/pool/pool.go: the router in front of the machines that run Ollama. This file has its
-- state, the marks on busy machines (`take`, `acquire`, `release`) and the queue's counter.
pub mod Pick
pub mod Homes
pub mod Place
pub mod Order
pub mod Exclusion
pub mod Meter
pub mod Examples
use homedash.Prelude.{
  ℕ, zero, suc, ◌-◌, String, Bool, true, false, not, ◌||◌, ◌&&◌, Option, none, some, List, [], ◌∷◌,
  ltb, leb, ◌==◌, if◌then◌else◌, any, keep,
}
use homedash.Hosts.{Host, is_online, resolve, decimal}

-- Where a conversation went: a machine (0: none), or a peer (the empty text: none).
pub record Home : Type 0 where
  pub host_id : ℕ
  pub peer : String
  pub at : ℕ

-- `busy` holds the ids marked true; `homes` the map as pairs, the last one written first.
pub record Pool : Type 0 where
  pub busy : List ℕ
  pub homes : List (String × Home)
  pub queued : ℕ

abbrev pub fresh : Pool
fresh = record { busy = []; homes = []; queued = 0 }

abbrev pub is_busy : ℕ → List ℕ → Bool
is_busy id = any (λ x. x == id)

-- Marks the machine, unless it is marked.
unfoldable pub take : Host → Pool → Option Host × Pool
take h p = if is_busy h.id p.busy then (none, p) else (some h, record p { busy = h.id ∷ p.busy })

-- `disabled` says which machines are switched off.
unfoldable pub acquire : List Host → (ℕ → Bool) → ℕ → Pool → Option Host × Pool
unfolding take
acquire hosts disabled host_id p = elim (resolve (decimal host_id) hosts) [
  | none ↦ (none, p)
  | some h ↦ if not (is_online h.status) || disabled h.id then (none, p) else take h p
]

unfoldable pub release : ℕ → Pool → Pool
release host_id p = record p { busy = keep (λ x. not (x == host_id)) p.busy }

-- False: the queue is at its depth.
unfoldable pub enqueue : ℕ → Pool → Bool × Pool
enqueue depth p =
    if leb depth p.queued then (false, p) else (true, record p { queued = suc p.queued })

unfoldable pub dequeue : Pool → Pool
dequeue p = if ltb 0 p.queued then record p { queued = p.queued - 1 } else p
