-- ===== src/Protocol/ProtocolParser/Search.antt =====
-- The search without regard to case finds the needle exactly if it occurs.
use hft_fix_engine.Base.{◌≡◌, ap, [], ◌∷◌, ◌++◌, map, Bytes}
use hft_fix_engine.Protocol.ProtocolParser.{lower, tail}

-- A part of the haystack that is the needle but for the case of its letters.
pub record Occurs (haystack needle : Bytes) : Type 0 where
  pub before : Bytes
  pub part : Bytes
  pub behind : Bytes
  pub splits : haystack ≡ before ++ (part ++ behind)
  pub same : map lower part ≡ map lower needle

-- The same at the front.
record Starts (haystack needle : Bytes) : Type 0 where
  part : Bytes
  behind : Bytes
  splits : haystack ≡ part ++ behind
  same : map lower part ≡ map lower needle

later : (hs ns : Bytes) → Occurs (tail hs) ns → Occurs hs ns
later [] ns o = o
later (c ∷ cs) ns o = record {
  before = c ∷ o.before;
  part = o.part;
  behind = o.behind;
  splits = ap (λ l. c ∷ l) o.splits;
  same = o.same;
}
