-- ===== src/Protocol/ProtocolParser/Ouch.antt =====
-- What a sender puts into an OUCH packet is what the parser makes of it.
use hft_fix_engine.Base.{
  ℕ, ◌^◌, ◌<◌, ◌≤◌, ◌≡◌, refl, ap, ◌∙◌, ℤ, pos, Bool, true, false, ◌||◌, [], ◌∷◌, ◌++◌, some,
  get_or, length, ◌==◌, if◌then◌else◌, Bytes, codes, arith, lt→ltb,
}
use hft_fix_engine.Protocol.ParsedOrder.{ParsedOrder, default_order}
use hft_fix_engine.Protocol.ProtocolParser.{
  ouch, is_pad, field, trim_right, read_word, copy_ouch, ouch_order, parse_in_place, signed,
}
use hft_fix_engine.Protocol.ProtocolParser.Wire.{
  word, read_word-word, padded, length-padded, IsTrimmed, trim_right-padded,
}
use hft_fix_engine.Protocol.ProtocolParser.Layout.{concat_onto, field-parts, byte-parts, parse_ouch}

-- What either format says of an order.
pub record Entry : Type 0 where
  pub seq_num : ℕ
  pub is_buy : Bool
  pub quantity : ℕ
  pub price : ℕ
  pub symbol : Bytes

abbrev pub side_byte : Bool → ℕ → ℕ → ℕ
side_byte true buy sell = buy
side_byte false buy sell = sell

abbrev pub side_number : Bool → ℤ
side_number true = pos 1
side_number false = pos 2

side-side_byte :
    (is_buy : Bool)
    → (if side_byte is_buy b'B' b'S' == b'B' || side_byte is_buy b'B' b'S' == b'1'
        then pos 1
        else pos 2)
      ≡ side_number is_buy
side-side_byte true = refl
side-side_byte false = refl

module _ (e : Entry) (id : Bytes) (pad timestamp_ns : ℕ) where
  unfoldable pub encode_ouch : Bytes → Bytes
  encode_ouch = concat_onto (
      (b'O' ∷ [])
      ∷ word 8 e.seq_num
      ∷ padded 14 pad id
      ∷ (side_byte e.is_buy b'B' b'S' ∷ [])
      ∷ word 4 e.quantity
      ∷ word 4 e.price
      ∷ padded 6 pad e.symbol
      ∷ word 8 timestamp_ns
      ∷ [])

  -- The order that the entry asks for.
  abbrev pub ouch_entry : ParsedOrder
  ouch_entry = record default_order {
    msg_type = codes "D";
    msg_type_char = b'D';
    seq_num = e.seq_num;
    cl_ord_id = id;
    symbol = e.symbol;
    side = side_number e.is_buy;
    quantity = pos e.quantity;
    price = pos e.price;
  }

  -- The fields of a message decide its order.
  ouch_order-fields :
      (m : Bytes)
      → read_word (field 1 8 m) ≡ e.seq_num
      → trim_right (field 9 14 m) ≡ id
      → get_or m 23 0 ≡ side_byte e.is_buy b'B' b'S'
      → read_word (field 24 4 m) ≡ e.quantity
      → read_word (field 28 4 m) ≡ e.price
      → trim_right (field 32 6 m) ≡ e.symbol
      → e.quantity < 2 ^ 31
      → ouch_order m ≡ ouch_entry
  unfolding ouch_order copy_ouch
  ouch_order-fields m seq name side qty price symbol small =
      let positive : signed (2 ^ 31) e.quantity ≡ pos e.quantity =
        rw (lt→ltb e.quantity (2 ^ 31) small) refl in
      rw (seq, name, side, qty, price, symbol, positive)
        (ap (λ s. record ouch_entry { side = s }) (side-side_byte e.is_buy))

  fields-encode_ouch :
      (rest : Bytes)
      → is_pad pad ≡ true
      → e.seq_num < 2 ^ 64
      → e.quantity < 2 ^ 31
      → e.price < 2 ^ 32
      → length id ≤ 14
      → IsTrimmed id
      → length e.symbol ≤ 6
      → IsTrimmed e.symbol
      → let m = encode_ouch rest in
        (read_word (field 1 8 m) ≡ e.seq_num)
        × (trim_right (field 9 14 m) ≡ id)
        × (get_or m 23 0 ≡ side_byte e.is_buy b'B' b'S')
        × (read_word (field 24 4 m) ≡ e.quantity)
        × (read_word (field 28 4 m) ≡ e.price)
        × (trim_right (field 32 6 m) ≡ e.symbol)
  unfolding encode_ouch
  fields-encode_ouch rest p seq qty price id_fits id_end symbol_fits symbol_end =
      let kind : Bytes = b'O' ∷ [] in
      let number = word 8 e.seq_num in
      let name = padded 14 pad id in
      let side = side_byte e.is_buy b'B' b'S' in
      let wn = length-padded 14 pad id id_fits in
      let t6 = word 8 timestamp_ns ++ rest in
      let t5 = padded 6 pad e.symbol ++ t6 in
      let t4 = word 4 e.price ++ t5 in
      let t3 = word 4 e.quantity ++ t4 in
      let t2 = name ++ (side ∷ t3) in
      (
        ap read_word (field-parts number t2 (kind ∷ []) 1 8 refl refl)
            ∙ read_word-word 8 e.seq_num (omega (arith, seq)),
        ap trim_right (field-parts name (side ∷ t3) (kind ∷ number ∷ []) 9 14 refl wn)
            ∙ trim_right-padded 14 pad id p id_fits id_end,
        byte-parts (kind ∷ number ∷ name ∷ []) side t3 23 (omega (arith, wn)),
        ap read_word (
              field-parts (word 4 e.quantity) t4 (kind ∷ number ∷ name ∷ (side ∷ []) ∷ []) 24 4
                (omega (arith, wn)) refl)
            ∙ read_word-word 4 e.quantity (omega (arith, qty)),
        ap read_word (
              field-parts (word 4 e.price) t5
                (kind ∷ number ∷ name ∷ (side ∷ []) ∷ word 4 e.quantity ∷ []) 28 4
                (omega (arith, wn)) refl)
            ∙ read_word-word 4 e.price (omega (arith, price)),
        ap trim_right (
              field-parts (padded 6 pad e.symbol) t6
                (kind ∷ number ∷ name ∷ (side ∷ []) ∷ word 4 e.quantity ∷ word 4 e.price ∷ []) 32 6
                (omega (arith, wn)) (length-padded 6 pad e.symbol symbol_fits))
            ∙ trim_right-padded 6 pad e.symbol p symbol_fits symbol_end,
      )

  -- An OUCH packet whose fields are in range and whose text ends in no padding is read as its order,
  -- whatever the memory behind the packet and that of the call that has ended.
  pub parse_in_place-encode_ouch :
      (stale rest : Bytes) (len : ℕ)
      → is_pad pad ≡ true
      → 46 ≤ len
      → e.seq_num < 2 ^ 64
      → e.quantity < 2 ^ 31
      → e.price < 2 ^ 32
      → length id ≤ 14
      → IsTrimmed id
      → length e.symbol ≤ 6
      → IsTrimmed e.symbol
      → parse_in_place stale ouch (some (encode_ouch rest)) len ≡ ouch_entry
  parse_in_place-encode_ouch stale rest len p enough seq qty price id_fits id_end symbol_fits
        symbol_end =
      let fs = fields-encode_ouch rest p seq qty price id_fits id_end symbol_fits symbol_end in
      parse_ouch stale (encode_ouch rest) len enough
      ∙ ouch_order-fields (encode_ouch rest) fs.0 fs.1 fs.2 fs.3 fs.4 fs.5 qty
