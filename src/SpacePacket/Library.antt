-- ===== src/SpacePacket/Library.antt =====
-- What the program calls of CCSDSPack (the headers CCSDSBuffer.h, CCSDSHeader.h, CCSDSPacket.h,
-- PusSecondaryHeaders.h and PusTailoring.h), which is not part of the repository: a parameter of the
-- model.
use exn_gs.Common.{ℕ, Bool, List, Option, Text}

-- `ccsds::Result`: a value, or an error with its message.
pub data Answer {ℓ} (A : Type ℓ) : Type ℓ where
  ok : A → Answer A
  err : Text → Answer A

infixl 5 ◌>>=◌
abbrev pub ◌>>=◌ {ℓ κ} : {A : Type ℓ} {B : Type κ} → Answer A → (A → Answer B) → Answer B
ok a >>= f = f a
err e >>= f = err e

-- The getters of `ccsds::Header`.
pub record Primary : Type 0 where
  pub version_number : ℕ
  pub type : ℕ
  pub secondary_header_flag : ℕ
  pub apid : ℕ
  pub sequence_flags : ℕ
  pub sequence_count : ℕ
  pub data_length : ℕ

-- The arguments and getters of `pus::rev_c::TcHeader`.
pub record TcHeader : Type 0 where
  pub service_type : ℕ
  pub service_subtype : ℕ
  pub source_id : ℕ
  pub acknowledgement_flags : ℕ

pub record CucTime : Type 0 where
  pub coarse : ℕ
  pub fine : ℕ

pub data Epoch : Type 0 where
  tai agency_defined : Epoch

pub data PFieldMode : Type 0 where
  explicit implicit : PFieldMode

-- `pus::rev_c::TmTailoring` with its `cuc` format.
pub record TmTailoring : Type 0 where
  pub timestamp_present : Bool
  pub epoch : Epoch
  pub p_field : PFieldMode
  pub coarse_octets : ℕ
  pub fine_octets : ℕ
  pub secondary_header_spare_octets : ℕ

pub record TmHeader : Type 0 where
  pub tailoring : TmTailoring
  pub service_type : ℕ
  pub service_subtype : ℕ
  pub message_type_counter : ℕ
  pub destination_id : ℕ
  pub time_reference_status : ℕ
  pub time : CucTime

pub record Pack : Type 1 where
  pub Packet : Type 0
  -- `ccsds::Packet packet;`
  pub new_packet : Packet
  pub set_update_packet_enable : Bool → Packet → Packet
  -- `setPacketErrorControlMode(PacketErrorControlMode::CRC16)`
  pub set_crc16 : Packet → Packet
  -- setters of `packet.getPrimaryHeader()`
  pub set_version_number : ℕ → Packet → Answer Packet
  pub set_apid : ℕ → Packet → Answer Packet
  -- `setSequenceFlags(UNSEGMENTED)`
  pub set_unsegmented : Packet → Packet
  pub set_sequence_count : ℕ → Packet → Answer Packet
  -- `setSecondaryHeader`
  pub set_tc_header : TcHeader → Packet → Answer Packet
  pub set_tm_header : TmHeader → Packet → Answer Packet
  pub set_application_data : List ℕ → Packet → Answer Packet
  pub serialize : Packet → Answer (List ℕ)
  -- `packet.deserialize<TcHeader>(bytes)`
  pub deserialize_tc : List ℕ → Packet → Answer Packet
  pub primary_header : Packet → Primary
  -- `getSecondaryHeader()`, `none` for a null pointer
  pub tc_header : Packet → Option TcHeader
  pub application_data : Packet → List ℕ
  -- `ccsds::buffer::declaredPacketSize`
  pub declared_size : List ℕ → Answer ℕ
  -- `ccsds::Header::deserialize`
  pub parse_primary : List ℕ → Answer Primary
  -- `getSize()` and `deserialize` of the secondary headers; the service and its subtype are read
  pub tc_header_size : ℕ
  pub parse_tc_header : List ℕ → Answer (ℕ × ℕ)
  pub tm_header_size : TmTailoring → ℕ
  pub parse_tm_header : TmTailoring → List ℕ → Answer (ℕ × ℕ)
