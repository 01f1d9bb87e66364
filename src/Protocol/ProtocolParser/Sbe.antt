-- ===== src/Protocol/ProtocolParser/Sbe.antt =====
-- What a sender puts into an SBE packet is what the parser makes of it.
use hft_fix_engine.Base.{
  ℕ, ◌^◌, ◌<◌, ◌≤◌, ◌≡◌, refl, ap, ◌∙◌, pos, true, [], ◌∷◌, ◌++◌, some, get_or, length, leb, take,
  set, Bytes, codes, decimal, length-decimal, arith, lt→ltb, le→leb,
}
use hft_fix_engine.Protocol.ParsedOrder.{ParsedOrder, default_order}
use hft_fix_engine.Protocol.ProtocolParser.{
  sbe, SbeHeader, is_pad, field, trim_right, read_word, copy_sbe, sbe_order, id_buffer,
  parse_in_place, signed,
}
use hft_fix_engine.Protocol.ProtocolParser.Wire.{
  word, read_word-word, padded, length-padded, IsTrimmed, trim_right-padded,
}
use hft_fix_engine.Protocol.ProtocolParser.Layout.{concat_onto, field-parts, byte-parts, parse_sbe}

-- What the format says of an order: the side and the time in force are bytes, the identifier a number.
pub record SbeEntry : Type 0 where
  pub header : SbeHeader
  pub seq_num : ℕ
  pub cl_ord_id_num : ℕ
  pub price : ℕ
  pub quantity : ℕ
  pub side : ℕ
  pub symbol : Bytes
  pub time_in_force : ℕ

take-set_append : (xs ys : Bytes) (v : ℕ) → take (length xs) (set (xs ++ ys) (length xs) v) ≡ xs
take-set_append [] ys v = refl
take-set_append (x ∷ xs) ys v = ap (λ l. x ∷ l) (take-set_append xs ys v)

module _ (e : SbeEntry) (pad : ℕ) where
  abbrev header_bytes : Bytes
  header_bytes =
      word 2 e.header.block_length
      ++ (word 2 e.header.template_id ++ (word 2 e.header.schema_id ++ word 2 e.header.version))

  -- The parser looks at no word of the header.
  unfoldable pub encode_sbe : Bytes → Bytes
  encode_sbe = concat_onto (
      header_bytes
      ∷ word 8 e.seq_num
      ∷ word 8 e.cl_ord_id_num
      ∷ word 8 e.price
      ∷ word 4 e.quantity
      ∷ (e.side ∷ [])
      ∷ padded 8 pad e.symbol
      ∷ (e.time_in_force ∷ [])
      ∷ [])

  -- The order that the entry asks for, with its number printed into the order's buffer, and with a view
  -- of as many bytes of the memory of the ended call.
  abbrev pub sbe_entry : Bytes → ParsedOrder
  sbe_entry stale = record default_order {
    msg_type = codes "D";
    msg_type_char = b'D';
    seq_num = e.seq_num;
    cl_ord_id = take (length (decimal e.cl_ord_id_num)) stale;
    cl_ord_id_buf = id_buffer e.cl_ord_id_num;
    symbol = e.symbol;
    side = pos e.side;
    quantity = pos e.quantity;
    price = pos e.price;
  }

  -- The fields of a message decide its order.
  sbe_order-fields :
      (stale m : Bytes)
      → read_word (field 8 8 m) ≡ e.seq_num
      → read_word (field 16 8 m) ≡ e.cl_ord_id_num
      → read_word (field 24 8 m) ≡ e.price
      → read_word (field 32 4 m) ≡ e.quantity
      → get_or m 36 0 ≡ e.side
      → trim_right (field 37 8 m) ≡ e.symbol
      → e.quantity < 2 ^ 31
      → e.price < 2 ^ 63
      → sbe_order stale m ≡ sbe_entry stale
  unfolding sbe_order copy_sbe
  sbe_order-fields stale m seq id price qty side symbol small cheap =
      let positive : signed (2 ^ 31) e.quantity ≡ pos e.quantity =
        rw (lt→ltb e.quantity (2 ^ 31) small) refl in
      let above : signed (2 ^ 63) e.price ≡ pos e.price = rw (lt→ltb e.price (2 ^ 63) cheap) refl in
      let fits : leb (length (decimal e.cl_ord_id_num)) 23 ≡ true =
        le→leb _ _ (omega (arith, length-decimal e.cl_ord_id_num)) in
      rw (id) (rw (fits) (rw (seq, price, qty, side, symbol, positive, above) refl))

  fields-encode_sbe :
      (rest : Bytes)
      → is_pad pad ≡ true
      → e.seq_num < 2 ^ 64
      → e.cl_ord_id_num < 2 ^ 64
      → e.price < 2 ^ 63
      → e.quantity < 2 ^ 31
      → length e.symbol ≤ 8
      → IsTrimmed e.symbol
      → let m = encode_sbe rest in
        (read_word (field 8 8 m) ≡ e.seq_num)
        × (read_word (field 16 8 m) ≡ e.cl_ord_id_num)
        × (read_word (field 24 8 m) ≡ e.price)
        × (read_word (field 32 4 m) ≡ e.quantity)
        × (get_or m 36 0 ≡ e.side)
        × (trim_right (field 37 8 m) ≡ e.symbol)
  unfolding encode_sbe
  fields-encode_sbe rest p seq id price qty symbol_fits symbol_end =
      let header = header_bytes in
      let number = word 8 e.seq_num in
      let name = word 8 e.cl_ord_id_num in
      let paid = word 8 e.price in
      let count = word 4 e.quantity in
      let side : Bytes = e.side ∷ [] in
      let t6 = e.time_in_force ∷ rest in
      let t5 = padded 8 pad e.symbol ++ t6 in
      let t3 = count ++ (e.side ∷ t5) in
      let t2 = paid ++ t3 in
      (
        ap read_word (field-parts number (name ++ t2) (header ∷ []) 8 8 refl refl)
            ∙ read_word-word 8 e.seq_num (omega (arith, seq)),
        ap read_word (field-parts name t2 (header ∷ number ∷ []) 16 8 refl refl)
            ∙ read_word-word 8 e.cl_ord_id_num (omega (arith, id)),
        ap read_word (field-parts paid t3 (header ∷ number ∷ name ∷ []) 24 8 refl refl)
            ∙ read_word-word 8 e.price (omega (arith, price)),
        ap read_word
              (field-parts count (e.side ∷ t5) (header ∷ number ∷ name ∷ paid ∷ []) 32 4 refl refl)
            ∙ read_word-word 4 e.quantity (omega (arith, qty)),
        byte-parts (header ∷ number ∷ name ∷ paid ∷ count ∷ []) e.side t5 36 refl,
        ap trim_right (
              field-parts (padded 8 pad e.symbol) t6
                (header ∷ number ∷ name ∷ paid ∷ count ∷ side ∷ []) 37 8 refl
                (length-padded 8 pad e.symbol symbol_fits))
            ∙ trim_right-padded 8 pad e.symbol p symbol_fits symbol_end,
      )

  -- An SBE packet with any header, whose fields are in range and whose symbol ends in no padding, is
  -- read as its order, whatever the memory behind the packet: every field but `cl_ord_id` is that of
  -- the packet, the order's own buffer begins with the identifier in decimal, and `cl_ord_id` is a view
  -- of the identifier's length on what the memory of the ended call holds.
  pub parse_in_place-encode_sbe :
      (stale rest : Bytes) (len : ℕ)
      → is_pad pad ≡ true
      → 46 ≤ len
      → e.seq_num < 2 ^ 64
      → e.cl_ord_id_num < 2 ^ 64
      → e.price < 2 ^ 63
      → e.quantity < 2 ^ 31
      → length e.symbol ≤ 8
      → IsTrimmed e.symbol
      → let order = parse_in_place stale sbe (some (encode_sbe rest)) len in
        (order ≡ sbe_entry stale)
        × (take (length (decimal e.cl_ord_id_num)) order.cl_ord_id_buf ≡ decimal e.cl_ord_id_num)
  parse_in_place-encode_sbe stale rest len p enough seq id price qty symbol_fits symbol_end =
      let fs = fields-encode_sbe rest p seq id price qty symbol_fits symbol_end in
      let read =
        parse_sbe stale (encode_sbe rest) len enough
        ∙ sbe_order-fields stale (encode_sbe rest) fs.0 fs.1 fs.2 fs.3 fs.4 fs.5 qty price in
      (
        read,
        ap (λ (o : ParsedOrder). take (length (decimal e.cl_ord_id_num)) o.cl_ord_id_buf) read
            ∙ take-set_append (decimal e.cl_ord_id_num) _ 0,
      )
