-- ===== src/Device.antt =====
-- crates/server/src/net.rs: `PacketDev`, the device between the tunnel and the userspace stack. Each
-- channel is the list of the packets in it.
pub mod Boundaries
use wg_wrapper.Base.{
  ℕ, suc, List, [], ◌∷◌, ◌++◌, Bytes, Option, none, some, length, leb, ltb, if◌then◌else◌,
}

pub record PacketDev : Type 0 where
  pub rx : List Bytes
  pub tx : List Bytes

-- The outcome of a poll: the packet put into the buffer, or none while it waits.
pub data Poll : Type 0 where
  pending : Poll
  ready : Bytes → Poll

-- The loop of `poll_read`: packets that do not fit into what remains of the buffer are dropped.
read_loop : ℕ → List Bytes → Poll × List Bytes
read_loop remaining [] = (pending, [])
read_loop remaining (p ∷ rx) =
    let rest = read_loop remaining rx in if leb (length p) remaining then (ready p, rx) else rest

unfoldable pub poll_read : PacketDev → ℕ → Poll × PacketDev
unfolding read_loop
poll_read dev remaining =
    let (poll, rx) = read_loop remaining dev.rx in (poll, record dev { rx = rx })

-- A full queue drops the packet; the write always reports its whole length.
unfoldable pub poll_write : ℕ → PacketDev → Bytes → ℕ × PacketDev
poll_write capacity dev packet = (
  length packet,
  if ltb (length dev.tx) capacity then record dev { tx = dev.tx ++ packet ∷ [] } else dev,
)
