-- ===== src/Catalog/Meta/Triggers.antt =====
-- The description of a trigger, written and read back (src/catalog/meta.rs, `encode_trigger` and
-- `decode_trigger`).
use sql.Common.{
  ℕ, ◌+◌, ◌%◌, ◌<◌, ◌^◌, ◌≡◌, refl, ap, arith, [], ◌∷◌, ◌++◌, append_assoc, Option, none, some,
  ==_ne, length, length-append, All,
}
use sql.Common.Bytes.{Bytes, length-counted, le_bytes, length-le_bytes, from_utf8_text}
use sql.Common.Cursor.{At, At-over, get_elem?-At, read_u32-At, slice-At}
use sql.Catalog.Meta.{
  TriggerTiming, before, after, instead_of, TriggerEvent, delete, insert, update, TriggerMeta,
}
use sql.Catalog.Meta.Encode.{
  u32_max, encode_str, flag, timing_tag, encode_strs, encode_event, encode_when, encode_trigger,
}
use sql.Catalog.Meta.Decode.{timing_of_tag, decode_event, decode_when, decode_trigger}
use sql.Catalog.Meta.Strings.{IsShort, str_at-encode_str, decode_strs-encode_strs}
use sql.Catalog.Meta.Tables.{flag_back}

pub timing_back : (t : TriggerTiming) → timing_of_tag (timing_tag t) ≡ t
unfolding timing_of_tag timing_tag
timing_back before = refl
timing_back after = refl
timing_back instead_of = refl

-- A list of columns whose length is not the mark of "no columns", and a condition likewise.
abbrev pub IsEvent : TriggerEvent → Type 0
IsEvent delete = Unit
IsEvent insert = Unit
IsEvent (update none) = Unit
IsEvent (update (some cols)) = All IsShort cols × (length cols < u32_max)

abbrev pub IsWhen : Option Bytes → Type 0
IsWhen none = Unit
IsWhen (some w) = IsShort w × (length w < u32_max)

pub record IsTrigger (t : TriggerMeta) : Type 0 where
  pub name : IsShort t.name
  pub table : IsShort t.table
  pub event : IsEvent t.event
  pub when : IsWhen t.when
  pub body : IsShort t.body

decode_event-encode_event :
    (e : TriggerEvent) {page : Bytes} {cur : ℕ} (rest : Bytes)
    → At page cur (encode_event e ++ rest)
    → IsEvent e
    → decode_event page cur ≡ some (e, cur + length (encode_event e))
unfolding decode_event encode_event
decode_event-encode_event delete rest a h = rw (get_elem?-At a)
decode_event-encode_event insert rest a h = rw (get_elem?-At a)
decode_event-encode_event (update none) {page} {cur} rest a h =
    let on_len = At-over (2 ∷ []) (le_bytes 4 u32_max ++ rest) a (cur + 1) refl in
    rw (get_elem?-At a, read_u32-At u32_max rest on_len (omega arith))
      (ap (λ (end : ℕ). some (update none, end)) (omega (arith, length-le_bytes 4 u32_max)))
decode_event-encode_event (update (some cols)) {page} {cur} rest a h =
    let n = length cols in
    let fits : n % 2 ^ 32 ≡ n = omega (arith, h.1) in
    let tail = encode_strs cols ++ rest in
    let here : At page cur (2 ∷ (le_bytes 4 n ++ tail)) = simp (append_assoc, fits) at a in
    let on_len = At-over (2 ∷ []) (le_bytes 4 n ++ tail) here (cur + 1) refl in
    let on_cols =
      At-over (le_bytes 4 n) tail on_len (cur + 1 + 4) (omega (arith, length-le_bytes 4 n)) in
    rw
      (
        get_elem?-At here,
        read_u32-At n tail on_len (omega (arith, h.1)),
        ==_ne n u32_max (omega (arith, h.1)),
        decode_strs-encode_strs cols rest on_cols h.0,
      )
      (ap (λ (end : ℕ). some (update (some cols), end))
        (omega (
          arith,
          length-append (le_bytes 4 (n % 2 ^ 32)) (encode_strs cols),
          length-le_bytes 4 (n % 2 ^ 32),
        )))

decode_when-encode_when :
    (w : Option Bytes) {page : Bytes} {cur : ℕ} (rest : Bytes)
    → At page cur (encode_when w ++ rest)
    → IsWhen w
    → decode_when page cur ≡ some (w, cur + length (encode_when w))
unfolding decode_when encode_when
decode_when-encode_when none {page} {cur} rest a h =
    rw (read_u32-At u32_max rest a (omega arith))
      (ap (λ (end : ℕ). some (none, end)) (omega (arith, length-le_bytes 4 u32_max)))
decode_when-encode_when (some w) {page} {cur} rest a h =
    let n = length w in
    let fits : n % 2 ^ 32 ≡ n = omega (arith, h.1) in
    let here : At page cur (le_bytes 4 n ++ (w ++ rest)) = simp (append_assoc, fits) at a in
    let on_text =
      At-over (le_bytes 4 n) (w ++ rest) here (cur + 4) (omega (arith, length-le_bytes 4 n)) in
    rw
      (
        read_u32-At n (w ++ rest) here (omega (arith, h.1)),
        ==_ne n u32_max (omega (arith, h.1)),
        slice-At w rest (cur + 4 + n) on_text refl,
        from_utf8_text w h.0.text,
      )
      (ap (λ (end : ℕ). some (some w, end)) (omega (arith, length-counted w)))

-- A trigger's description with short UTF-8 texts, and fewer than 2^32 - 1 columns and bytes of the
-- condition, is read back from its bytes, whatever follows them: its name and table, timing, event
-- with its columns, row flag, condition and body.
pub decode_trigger-encode_trigger :
    (t : TriggerMeta) (rest : Bytes)
    → IsTrigger t
    → decode_trigger (encode_trigger t ++ rest) ≡ some t
unfolding decode_trigger encode_trigger
decode_trigger-encode_trigger t rest h =
    let at6 = encode_str t.body ++ rest in
    let at5 = encode_when t.when ++ at6 in
    let at4 = flag t.for_each_row ∷ at5 in
    let at3 = encode_event t.event ++ at4 in
    let at2 = timing_tag t.timing ∷ at3 in
    let at1 = encode_str t.table ++ at2 in
    let n1 = length (encode_str t.name) in
    let n2 = n1 + length (encode_str t.table) in
    let n3 = n2 + 1 + length (encode_event t.event) in
    let n4 = n3 + 1 + length (encode_when t.when) in
    let start : At (encode_trigger t ++ rest) 0 (encode_str t.name ++ at1) = record {
      front = [];
      layout = simp append_assoc;
      size = refl;
    } in
    let on_table = At-over (encode_str t.name) at1 start n1 (omega arith) in
    let on_timing = At-over (encode_str t.table) at2 on_table n2 refl in
    let on_event = At-over (timing_tag t.timing ∷ []) at3 on_timing (n2 + 1) refl in
    let on_row = At-over (encode_event t.event) at4 on_event n3 refl in
    let on_when = At-over (flag t.for_each_row ∷ []) at5 on_row (n3 + 1) refl in
    let on_body = At-over (encode_when t.when) at6 on_when n4 refl in
    let zero_add : 0 + n1 ≡ n1 = omega arith in
    rw (
      str_at-encode_str t.name at1 start h.name,
      zero_add,
      str_at-encode_str t.table at2 on_table h.table,
      get_elem?-At on_timing,
      decode_event-encode_event t.event at4 on_event h.event,
      get_elem?-At on_row,
      decode_when-encode_when t.when at6 on_when h.when,
      str_at-encode_str t.body rest on_body h.body,
      timing_back t.timing,
      flag_back t.for_each_row,
    )
