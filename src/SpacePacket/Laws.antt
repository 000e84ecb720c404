-- ===== src/SpacePacket/Laws.antt =====
-- What shared/src/ccsds.cpp relies on of CCSDSPack: a packet keeps what its setters are given, within
-- the widths of the fields, and is read back from its bytes in the mode in which it was written.
use exn_gs.Common.{
  ℕ, ◌+◌, ◌^◌, ◌≤◌, ◌<◌, ◌≡◌, Bool, true, false, List, [], Option, none, some, length, take, ◌++◌,
}
use exn_gs.SpacePacket.Library.{Answer, ok, Primary, TcHeader, TmHeader, Pack}

-- What a packet with a TC secondary header holds, besides its error control mode.
pub record Contents : Type 0 where
  pub crc16 : Bool
  pub version_number : ℕ
  pub apid : ℕ
  pub sequence_flags : ℕ
  pub sequence_count : ℕ
  pub secondary : Option TcHeader
  pub application_data : List ℕ

abbrev pub no_contents : Contents
no_contents = record {
  crc16 = false;
  version_number = 0;
  apid = 0;
  sequence_flags = 0;
  sequence_count = 0;
  secondary = none;
  application_data = [];
}

-- The fields of a TC secondary header of PUS-C fit their widths.
abbrev pub FitsTc : TcHeader → Type 0
FitsTc h =
    (h.service_type < 2 ^ 8)
    × (h.service_subtype < 2 ^ 8)
    × (h.source_id < 2 ^ 16)
    × (h.acknowledgement_flags < 2 ^ 4)

-- The call succeeds, and the packet that it leaves has these contents.
abbrev pub Leaves : {P : Type 0} → (P → Contents) → Answer P → Contents → Type 0
Leaves contents answer c = (p : _) × (answer ≡ ok p) × (contents p ≡ c)

-- A serialized packet: its primary header can be read, and declares its size.
abbrev pub IsWhole : Pack → List ℕ → Type 0
IsWhole pack bytes =
    (pack.declared_size bytes ≡ ok (length bytes))
    × (7 ≤ length bytes)
    × (length bytes ≤ 65542)
    × ((primary : Primary) × (pack.parse_primary (take 6 bytes) ≡ ok primary))

-- `length data + tc_header_size + 2`: the packet data field, with the CRC behind it.
pub record Documented (pack : Pack) : Type 0 where
  pub contents : pack.Packet → Contents
  pub new_packet_lem : contents pack.new_packet ≡ no_contents
  pub update_lem :
      (b : Bool) (p : pack.Packet) → contents (pack.set_update_packet_enable b p) ≡ contents p
  pub crc16_lem :
      (p : pack.Packet) → contents (pack.set_crc16 p) ≡ record (contents p) { crc16 = true }
  pub version_lem :
      (n : ℕ) (p : pack.Packet)
      → n < 2 ^ 3
      → Leaves contents (pack.set_version_number n p) (record (contents p) { version_number = n })
  pub apid_lem :
      (n : ℕ) (p : pack.Packet)
      → n < 2 ^ 11
      → Leaves contents (pack.set_apid n p) (record (contents p) { apid = n })
  pub unsegmented_lem :
      (p : pack.Packet)
      → contents (pack.set_unsegmented p) ≡ record (contents p) { sequence_flags = 3 }
  pub count_lem :
      (n : ℕ) (p : pack.Packet)
      → n < 2 ^ 14
      → Leaves contents (pack.set_sequence_count n p) (record (contents p) { sequence_count = n })
  pub tc_header_lem :
      (h : TcHeader) (p : pack.Packet)
      → FitsTc h
      → Leaves contents (pack.set_tc_header h p) (record (contents p) { secondary = some h })
  pub data_lem :
      (bytes : List ℕ) (p : pack.Packet)
      → length bytes + pack.tc_header_size + 2 ≤ 2 ^ 16
      → Leaves contents
          (pack.set_application_data bytes p)
          (record (contents p) { application_data = bytes })
  pub serialize_lem :
      (p q : pack.Packet) (h : TcHeader)
      → (contents p).secondary ≡ some h
      → length (contents p).application_data + pack.tc_header_size + 2 ≤ 2 ^ 16
      → (contents q).crc16 ≡ (contents p).crc16
      → (bytes : List ℕ) × (pack.serialize p ≡ ok bytes)
        × IsWhole pack bytes
        × Leaves contents (pack.deserialize_tc bytes q) (contents p)
  -- the getters of a primary header are within the widths of its fields
  pub parse_primary_lem :
      (bytes : List ℕ) (primary : Primary)
      → pack.parse_primary bytes ≡ ok primary
      → (primary.apid < 2 ^ 11) × (primary.sequence_count < 2 ^ 14) × (primary.data_length < 2 ^ 16)
  -- the size is read from the six bytes of the primary header
  pub declared_size_read :
      (xs ys : List ℕ) → 6 ≤ length xs → pack.declared_size (xs ++ ys) ≡ pack.declared_size xs
  pub tc_header_read : (p : pack.Packet) → pack.tc_header p ≡ (contents p).secondary
  pub data_read : (p : pack.Packet) → pack.application_data p ≡ (contents p).application_data
  pub version_read :
      (p : pack.Packet) → (pack.primary_header p).version_number ≡ (contents p).version_number
  pub apid_read : (p : pack.Packet) → (pack.primary_header p).apid ≡ (contents p).apid
  pub flags_read :
      (p : pack.Packet) → (pack.primary_header p).sequence_flags ≡ (contents p).sequence_flags
  pub count_read :
      (p : pack.Packet) → (pack.primary_header p).sequence_count ≡ (contents p).sequence_count

-- The fields of a TM secondary header of PUS-C fit their widths, with a time of 4 and 2 octets.
abbrev pub FitsTm : TmHeader → Type 0
FitsTm h =
    (h.service_type < 2 ^ 8)
    × (h.service_subtype < 2 ^ 8)
    × (h.message_type_counter < 2 ^ 16)
    × (h.destination_id < 2 ^ 16)
    × (h.time_reference_status < 2 ^ 4)
    × (h.time.coarse < 2 ^ 32)
    × (h.time.fine < 2 ^ 16)

-- What is relied on for reports besides: a header that fits is set, application data leaves it as it is,
-- and a packet with it whose data field has room is serialized.
pub record DocumentedTm (pack : Pack) (documented : Documented pack) : Type 1 where
  pub Carries : pack.Packet → TmHeader → Type 0
  pub tm_header_lem :
      (h : TmHeader) (p : pack.Packet)
      → FitsTm h
      → (q : pack.Packet) × (pack.set_tm_header h p ≡ ok q)
        × Carries q h
        × ((documented.contents q).application_data ≡ (documented.contents p).application_data)
  pub carried_lem :
      (bytes : List ℕ) (h : TmHeader) (p q : pack.Packet)
      → Carries p h
      → pack.set_application_data bytes p ≡ ok q
      → Carries q h
  pub serialize_tm_lem :
      (p : pack.Packet) (h : TmHeader)
      → Carries p h
      → length (documented.contents p).application_data + pack.tm_header_size h.tailoring + 2
        ≤ 2 ^ 16
      → (bytes : List ℕ) × (pack.serialize p ≡ ok bytes) × IsWhole pack bytes
