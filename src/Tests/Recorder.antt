-- ===== src/Tests/Recorder.antt =====
-- A stand-in for CCSDSPack that writes a word for each field of a telecommand; a report is written as
-- one, with its destination as the source.
use exn_gs.Common.{
  ◌++◌, ◌^◌, ℕ, ◌+◌, ◌≡◌, refl, arith, true, List, [], ◌∷◌, none, some, codes, length, ap, ◌≤◌, ◌<◌,
  ◌∙◌, Bool, Option, sym,
}
use mathlib.Core.Path.{subst}
use exn_gs.SpacePacket.Library.{Answer, ok, err, Primary, TcHeader, TmHeader, Pack}
use exn_gs.SpacePacket.Laws.{Contents, no_contents, Leaves, IsWhole, Documented, DocumentedTm}

abbrev write_words : Contents → Answer (List ℕ)
write_words c = elim c.secondary [
  | none ↦ err (codes "no secondary header")
  | some h ↦ ok (
      c.version_number
      ∷ c.apid
      ∷ c.sequence_flags
      ∷ c.sequence_count
      ∷ 0
      ∷ (length c.application_data + 10)
      ∷ h.service_type
      ∷ h.service_subtype
      ∷ h.source_id
      ∷ h.acknowledgement_flags
      ∷ c.application_data)
]

abbrev read_words : List ℕ → Contents → Answer Contents
read_words (v ∷ a ∷ f ∷ n ∷ z ∷ l ∷ s ∷ t ∷ o ∷ k ∷ bytes) c = ok (record {
  crc16 = c.crc16;
  version_number = v;
  apid = a;
  sequence_flags = f;
  sequence_count = n;
  secondary =
      some (record {
        service_type = s;
        service_subtype = t;
        source_id = o;
        acknowledgement_flags = k;
      });
  application_data = bytes;
})
read_words _ c = err (codes "short")

abbrev pub primary_of : Contents → Primary
primary_of c = record {
  version_number = c.version_number;
  type = 1;
  secondary_header_flag = 1;
  apid = c.apid;
  sequence_flags = c.sequence_flags;
  sequence_count = c.sequence_count;
  data_length = length c.application_data + 6;
}

-- The sixth word is the size.
abbrev size_of : List ℕ → Answer ℕ
size_of (v ∷ a ∷ f ∷ n ∷ z ∷ l ∷ bytes) = ok l
size_of _ = err (codes "short")

size_of-append : (xs ys : List ℕ) → 6 ≤ length xs → size_of (xs ++ ys) ≡ size_of xs
size_of-append (v ∷ a ∷ f ∷ n ∷ z ∷ l ∷ bytes) ys h = refl
size_of-append [] ys h = absurd (omega arith)
size_of-append (v ∷ []) ys h = absurd (omega arith)
size_of-append (v ∷ a ∷ []) ys h = absurd (omega arith)
size_of-append (v ∷ a ∷ f ∷ []) ys h = absurd (omega arith)
size_of-append (v ∷ a ∷ f ∷ n ∷ []) ys h = absurd (omega arith)
size_of-append (v ∷ a ∷ f ∷ n ∷ z ∷ []) ys h = absurd (omega arith)

abbrev pub recorder : Pack
recorder = record {
  Packet = Contents;
  new_packet = no_contents;
  set_update_packet_enable = λ b c. c;
  set_crc16 = λ c. record c { crc16 = true };
  set_version_number = λ n c. ok (record c { version_number = n });
  set_apid = λ n c. ok (record c { apid = n });
  set_unsegmented = λ c. record c { sequence_flags = 3 };
  set_sequence_count = λ n c. ok (record c { sequence_count = n });
  set_tc_header = λ h c. ok (record c { secondary = some h });
  set_tm_header = λ h c. ok (record c {
    secondary = some (record {
      service_type = h.service_type;
      service_subtype = h.service_subtype;
      source_id = h.destination_id;
      acknowledgement_flags = 0;
    });
  });
  set_application_data = λ bytes c. ok (record c { application_data = bytes });
  serialize = write_words;
  deserialize_tc = read_words;
  primary_header = primary_of;
  tc_header = λ c. c.secondary;
  application_data = λ c. c.application_data;
  declared_size = size_of;
  parse_primary = λ bytes. ok (primary_of no_contents);
  tc_header_size = 5;
  parse_tc_header = λ bytes. err (codes "a telecommand");
  tm_header_size = λ t. 13;
  parse_tm_header = λ t bytes. err (codes "a telecommand");
}

words_lem :
    (c d : Contents) (h : TcHeader)
    → c.secondary ≡ some h
    → length c.application_data + 5 + 2 ≤ 2 ^ 16
    → d.crc16 ≡ c.crc16
    → (bytes : List ℕ) × (write_words c ≡ ok bytes)
      × IsWhole recorder bytes
      × Leaves (λ (x : Contents). x) (read_words bytes d) c
words_lem c d h headed room mode = (
  c.version_number
      ∷ c.apid
      ∷ c.sequence_flags
      ∷ c.sequence_count
      ∷ 0
      ∷ (length c.application_data + 10)
      ∷ h.service_type
      ∷ h.service_subtype
      ∷ h.source_id
      ∷ h.acknowledgement_flags
      ∷ c.application_data,
  rw headed refl,
  (ap (λ (n : ℕ). ok n) (omega arith), omega arith, omega arith, (primary_of no_contents, refl)),
  (
    record c { crc16 = d.crc16; secondary = some h },
    refl,
    ap (λ (m : Bool). record c { crc16 = m; secondary = some h }) mode
        ∙ ap (λ (o : Option TcHeader). record c { secondary = o }) (sym headed),
  ),
)

parsed_lem :
    (primary : Primary)
    → ◌≡◌ {A = Answer Primary} (ok (primary_of no_contents)) (ok primary)
    → (primary.apid < 2 ^ 11) × (primary.sequence_count < 2 ^ 14) × (primary.data_length < 2 ^ 16)
parsed_lem primary e =
    let same : primary_of no_contents ≡ primary = cc in
    subst
      (λ (p : Primary). (p.apid < 2 ^ 11) × (p.sequence_count < 2 ^ 14) × (p.data_length < 2 ^ 16))
      same (omega arith, omega arith, omega arith)

pub recorder-Documented : Documented recorder
recorder-Documented = record {
  contents = λ c. c;
  new_packet_lem = refl;
  update_lem = λ b c. refl;
  crc16_lem = λ c. refl;
  version_lem = λ n c fits. (record c { version_number = n }, refl, refl);
  apid_lem = λ n c fits. (record c { apid = n }, refl, refl);
  unsegmented_lem = λ c. refl;
  count_lem = λ n c fits. (record c { sequence_count = n }, refl, refl);
  tc_header_lem = λ h c fits. (record c { secondary = some h }, refl, refl);
  data_lem = λ bytes c fits. (record c { application_data = bytes }, refl, refl);
  serialize_lem = λ c d h headed fits mode. words_lem c d h headed fits mode;
  parse_primary_lem = λ bytes primary e. parsed_lem primary e;
  declared_size_read = size_of-append;
  tc_header_read = λ c. refl;
  data_read = λ c. refl;
  version_read = λ c. refl;
  apid_read = λ c. refl;
  flags_read = λ c. refl;
  count_read = λ c. refl;
}

-- A report's header, as the recorder writes it.
abbrev as_tc : TmHeader → TcHeader
as_tc h = record {
  service_type = h.service_type;
  service_subtype = h.service_subtype;
  source_id = h.destination_id;
  acknowledgement_flags = 0;
}

carried_on :
    (bytes : List ℕ) (h : TmHeader) (c d : Contents)
    → c.secondary ≡ some (as_tc h)
    → ◌≡◌ {A = Answer Contents} (ok (record c { application_data = bytes })) (ok d)
    → d.secondary ≡ some (as_tc h)
carried_on bytes h c d headed e =
    let same : record c { application_data = bytes } ≡ d = cc in
    ap (λ (x : Contents). x.secondary) (sym same) ∙ headed

report_written :
    (c : Contents) (h : TmHeader)
    → c.secondary ≡ some (as_tc h)
    → length c.application_data + 13 + 2 ≤ 2 ^ 16
    → (bytes : List ℕ) × (write_words c ≡ ok bytes) × IsWhole recorder bytes
report_written c h headed room =
    let (bytes, written, whole, read) = words_lem c c (as_tc h) headed (omega arith) refl in
    (bytes, written, whole)

pub recorder-DocumentedTm : DocumentedTm recorder recorder-Documented
unfolding recorder-Documented
recorder-DocumentedTm = record {
  Carries = λ c h. c.secondary ≡ some (as_tc h);
  tm_header_lem = λ h c fits. (record c { secondary = some (as_tc h) }, refl, refl, refl);
  carried_lem = carried_on;
  serialize_tm_lem = report_written;
}
