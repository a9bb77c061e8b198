-- ===== src/Device/Boundaries.antt =====
-- One read is one packet, one write is at most one packet.
use wg_wrapper.Base.{
  ℕ, ◌≤◌, ◌<◌, ◌≡◌, refl, ap, List, [], ◌∷◌, ◌++◌, Bytes, arith, All, length, leb, Bool-cases, inl,
  inr, ◌⊎◌, length-append, leb→le,
}
use wg_wrapper.Device.{PacketDev, Poll, pending, ready, read_loop, poll_read, poll_write}

-- What a read does to the packets that wait: it takes the first that fits, and those before it.
pub data Reads (remaining : ℕ) : List Bytes → Poll → List Bytes → Type 0 where
  starved : {rx : List Bytes} → All (λ p. remaining < length p) rx → Reads remaining rx pending []
  took :
      {rx : List Bytes} (dropped : List Bytes) (p : Bytes) (rest : List Bytes)
      → All (λ q. remaining < length q) dropped
      → length p ≤ remaining
      → rx ≡ dropped ++ p ∷ rest
      → Reads remaining rx (ready p) rest

Reads-cons :
    (remaining : ℕ) (q : Bytes) (rx : List Bytes) (poll : Poll) (rest : List Bytes)
    → remaining < length q
    → Reads remaining rx poll rest
    → Reads remaining (q ∷ rx) poll rest
Reads-cons remaining q rx _ _ h (starved all) = starved (h, all)
Reads-cons remaining q rx _ _ h (took dropped p rest all fits e) =
    took (q ∷ dropped) p rest (h, all) fits (ap (◌∷◌ q) e)

read_loop-Reads :
    (remaining : ℕ) (rx : List Bytes)
    → Reads remaining rx (read_loop remaining rx).0 (read_loop remaining rx).1
unfolding read_loop
read_loop-Reads remaining [] = starved tt
read_loop-Reads remaining (p ∷ rx) = elim (Bool-cases (leb (length p) remaining)) [
  | inl fits ↦ rw fits (took [] p rx tt (leb→le (length p) remaining fits) refl)
  | inr large ↦
      rw large (Reads-cons remaining p rx _ _ (ground arith) (read_loop-Reads remaining rx))
]

-- A read yields the first waiting packet that fits, whole, and drops only larger ones before it; it
-- waits exactly if none fits. A write queues the packet whole behind the others, or, only if the
-- queue is full, drops it, and the queue stays within its capacity.
pub poll_boundaries :
    (dev : PacketDev) (remaining capacity : ℕ) (packet : Bytes)
    → length dev.tx ≤ capacity
    → Reads remaining dev.rx (poll_read dev remaining).0 (poll_read dev remaining).1.rx
      × (((poll_write capacity dev packet).1.tx ≡ dev.tx ++ packet ∷ [])
          ⊎ ((length dev.tx ≡ capacity) × ((poll_write capacity dev packet).1 ≡ dev)))
      × (length (poll_write capacity dev packet).1.tx ≤ capacity)
unfolding poll_read poll_write
poll_boundaries dev remaining capacity packet h = (
  read_loop-Reads remaining dev.rx,
  ground arith,
  ground (arith, length-append dev.tx (packet ∷ [])),
)
