-- ===== src/Rst.antt =====
-- crates/server/src/net.rs: `tcp_rst`. The packet parser and builder (etherparse) are outside.
pub mod Mirror
use wg_wrapper.Base.{ℕ, ◌+◌, ◌%◌, ◌^◌, Bool, true, false, Bytes, Option, none, some, if◌then◌else◌}

pub record TcpHeader : Type 0 where
  pub source_port : ℕ
  pub destination_port : ℕ
  pub sequence_number : ℕ
  pub acknowledgment_number : ℕ
  pub window_size : ℕ
  pub syn : Bool
  pub rst : Bool
  pub ack : Bool

-- The network and transport headers of a packet; `other` is any that is not looked into.
pub data NetHeaders : Type 0 where
  ipv4 : ℕ → ℕ → NetHeaders
  other : NetHeaders

pub data TransportHeader : Type 0 where
  tcp : TcpHeader → TransportHeader
  other : TransportHeader

pub record PacketHeaders : Type 0 where
  pub net : Option NetHeaders
  pub transport : Option TransportHeader

pub record Etherparse : Type 0 where
  pub from_ip_slice : Bytes → Option PacketHeaders
  -- source, destination and time to live of an IPv4 packet around a TCP header with no payload
  pub write_ipv4_tcp : ℕ → ℕ → ℕ → TcpHeader → Option Bytes

-- TcpHeader::new
abbrev pub new_header : ℕ → ℕ → ℕ → ℕ → TcpHeader
new_header source destination sequence window = record {
  source_port = source;
  destination_port = destination;
  sequence_number = sequence;
  acknowledgment_number = 0;
  window_size = window;
  syn = false;
  rst = false;
  ack = false;
}

abbrev pub reset_for : TcpHeader → TcpHeader
reset_for t = record (new_header t.destination_port t.source_port 0 0) {
  rst = true;
  ack = true;
  acknowledgment_number = (t.sequence_number + 1) % 2 ^ 32;
}

module _ (lib : Etherparse) where
  answer : Option NetHeaders → Option TransportHeader → Option Bytes
  answer (some (ipv4 source destination)) (some (tcp t)) =
      if t.rst then none else lib.write_ipv4_tcp destination source 64 (reset_for t)
  answer (some (ipv4 source destination)) (some other) = none
  answer (some (ipv4 source destination)) none = none
  answer (some other) t = none
  answer none t = none

  answer_parsed : Option PacketHeaders → Option Bytes
  unfolding answer
  answer_parsed none = none
  answer_parsed (some p) = answer p.net p.transport

  -- The RST/ACK that goes back for a packet to a forbidden destination.
  unfoldable pub tcp_rst : Bytes → Option Bytes
  unfolding answer_parsed
  tcp_rst packet = answer_parsed (lib.from_ip_slice packet)
