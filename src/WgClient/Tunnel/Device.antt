-- ===== src/WgClient/Tunnel/Device.antt =====
-- crates/wgclient/src/lib.rs: the threads of `connect_to` that copy between the device and the
-- channels, and `win::Device`. What the driver's session answers, the flag `shutdown` and whether
-- the other end of a channel is there are arguments of a round.
use wg_wrapper.Base.{
  ℕ, ◌≤◌, ◌%◌, ◌^◌, ◌≡◌, refl, ap, Bool, Bool-cases, true, false, not, ◌&&◌, List, [], ◌∷◌, map,
  filter, All, Bytes, Option, none, some, inl, inr, arith, length, ltb, ◌==◌, if◌then◌else◌,
}

-- MAX_PACKET of crates/wgcore/src/lib.rs, the size of the buffer
abbrev pub max_packet : ℕ
max_packet = 65535

-- Device::recv on a packet of the session: an error if the buffer is too small
unfoldable pub recv : (size : ℕ) → Option Bytes → Option Bytes
recv size none = none
recv size (some p) = if ltb size (length p) then none else some p

-- A round of the read thread: the flag, the session's packet, whether the task takes it.
pub record Round : Type 0 where
  pub shutdown : Bool
  pub packet : Option Bytes
  pub taken : Bool

-- The match on a packet; `rest` is what the rounds behind it send.
abbrev sent : Option Bytes → Bool → List Bytes → List Bytes
sent none taken rest = []
sent (some []) taken rest = rest
sent (some (b ∷ p)) false rest = []
sent (some (b ∷ p)) true rest = (b ∷ p) ∷ rest

-- The packets that the read thread sends to the task.
unfoldable pub read_thread : List Round → List Bytes
unfolding recv
read_thread [] = []
read_thread (r ∷ rs) =
    let rest = read_thread rs in
    if r.shutdown then [] else sent (recv max_packet r.packet) r.taken rest

-- How Device::send ends: with a packet on the session's ring, an error, or a panic of
-- copy_from_slice on two lengths.
pub data Sent : Type 0 where
  ringed : Bytes → Sent
  full panicked : Sent

-- Device::send, which asks for a length of 16 bits
unfoldable pub send : (room : Bool) → Bytes → Sent
send false p = full
send true p = if length p % 2 ^ 16 == length p then ringed p else panicked

abbrev kept : Sent → List Bytes → List Bytes
kept (ringed p) rest = p ∷ rest
kept full rest = []
kept panicked rest = []

-- The packets that the write thread puts on the ring, each with whether there is room.
unfoldable pub write_thread : List (Bytes × Bool) → List Bytes
unfolding send
write_thread [] = []
write_thread ((p, room) ∷ ps) = let rest = write_thread ps in kept (send room p) rest

-- Iterator::take_while
abbrev take_while {ℓ} : {A : Type ℓ} → (A → Bool) → List A → List A
take_while p [] = []
take_while p (x ∷ xs) = let rest = take_while p xs in if p x then x ∷ rest else []

abbrev filled : Bytes → Bool
filled [] = false
filled (_ ∷ _) = true

abbrev arrives : Option Bytes → Bool → Bool
arrives none taken = false
arrives (some []) taken = true
arrives (some (_ ∷ _)) taken = taken

-- The thread goes on: no shutdown, a packet that fits, and a task that takes it.
abbrev pub live : Round → Bool
live r = not r.shutdown && arrives (recv max_packet r.packet) r.taken

abbrev payload : Option Bytes → Bytes
payload none = []
payload (some p) = p

abbrev payloads : List Round → List Bytes
payloads rs = filter filled (map (λ r. payload r.packet) (take_while live rs))

abbrev Packet : Bytes → Type 0
Packet p = (1 ≤ length p) × (length p ≤ max_packet)

round-payloads :
    (shutdown : Bool) (packet : Option Bytes) (taken : Bool) (rs : List Round)
    → read_thread rs ≡ payloads rs
    → let r : Round = record { shutdown = shutdown; packet = packet; taken = taken } in
      read_thread (r ∷ rs) ≡ payloads (r ∷ rs)
unfolding read_thread
round-payloads true packet taken rs h = refl
round-payloads false none taken rs h = refl
round-payloads false (some []) taken rs h = h
round-payloads false (some (b ∷ p)) taken rs h =
    elim (Bool-cases (ltb max_packet (length (b ∷ p)))) [
      | inl big ↦ rw big refl
      | inr fits ↦ rw fits (taken_or_not taken)
    ]
  where
    taken_or_not :
        (t : Bool)
        → sent (some (b ∷ p)) t (read_thread rs)
          ≡ filter filled (
              map
                (λ r. payload r.packet)
                (if t
                  then record { shutdown = false; packet = some (b ∷ p); taken = t }
                    ∷ take_while live rs
                  else []))
    taken_or_not true = ap (λ x. (b ∷ p) ∷ x) h
    taken_or_not false = refl

-- The read thread sends the task the packets of its rounds up to the first that stops it, in
-- order; the empty ones are left out.
pub read_thread-payloads : (rs : List Round) → read_thread rs ≡ payloads rs
unfolding read_thread
read_thread-payloads [] = refl
read_thread-payloads (r ∷ rs) =
    round-payloads r.shutdown r.packet r.taken rs (read_thread-payloads rs)

send-fits : (p : Bytes) → length p ≤ max_packet → send true p ≡ ringed p
unfolding send
send-fits p h = ground arith

-- Packets of at most 65,535 bytes are put on the ring unchanged and in order, up to the first for
-- which there is no room; the length that is cut to 16 bits makes none panic.
pub write_thread-Fits :
    (ps : List (Bytes × Bool))
    → All (λ (p, room). length p ≤ max_packet) ps
    → write_thread ps ≡ map (λ (p, room). p) (take_while (λ (p, room). room) ps)
unfolding write_thread
write_thread-Fits [] h = refl
write_thread-Fits ((p, false) ∷ ps) h = refl
write_thread-Fits ((p, true) ∷ ps) h =
    rw (send-fits p h.0) (ap (λ x. p ∷ x) (write_thread-Fits ps h.1))
