-- ===== src/Identity.antt =====
-- include/utils/TorrentIdentity.hpp: the identifier of a torrent, printed from its info hashes, and
-- `normalizeInfoHash` of src/app/SearchEngine.cpp.
pub mod Hex
pub mod Forms
pub mod Valid
pub mod Injective
pub mod Normalize
use hypertube.Common.{
  ℕ, suc, ◌+◌, ◌<◌, ◌≡◌, Bool, true, false, not, ◌&&◌, ◌||◌, [], ◌∷◌, ◌++◌, Option, none, some,
  Text, codes, leb, nat_beq, ◌==◌, text_eq, if◌then◌else◌, length, take, drop, is_empty,
  starts_with, find_byte, All,
}
use Hex.{hex}

-- What the program uses of `lt::info_hash_t`: which digests it has, and their bytes. A v1 digest
-- has 20 bytes and a v2 digest 32, a digest that is not there is the same for all hashes, and the
-- two digests make up the hash.
pub record InfoHash (H : Type 0) : Type 0 where
  pub has_v1 : H → Bool
  pub has_v2 : H → Bool
  pub v1 : H → Text
  pub v2 : H → Text
  pub v1_size : (h : H) → length (v1 h) ≡ 20
  pub v2_size : (h : H) → length (v2 h) ≡ 32
  pub v1_bytes : (h : H) → All (λ b. b < 256) (v1 h)
  pub v2_bytes : (h : H) → All (λ b. b < 256) (v2 h)
  pub v1_absent : (g h : H) → has_v1 g ≡ false → has_v1 h ≡ false → v1 g ≡ v1 h
  pub v2_absent : (g h : H) → has_v2 g ≡ false → has_v2 h ≡ false → v2 g ≡ v2 h
  pub ext : (g h : H) → v1 g ≡ v1 h → v2 g ≡ v2 h → g ≡ h

module _ {H : Type 0} ⦃i : InfoHash H⦄ where
  -- `id(hash)`
  unfoldable pub id : H → Text
  id h =
      let first = if i.has_v1 h then codes "v1:" ++ hex (i.v1 h) else [] in
      if i.has_v2 h
      then (if is_empty first then first else first ++ b'|' ∷ []) ++ (codes "v2:" ++ hex (i.v2 h))
      else first

  unfoldable pub matches : H → Text → Bool
  unfolding id
  matches h candidate = id h == candidate

unfoldable pub all_lower_hex : Text → Bool
all_lower_hex [] = true
all_lower_hex (c ∷ s) =
    ((leb b'0' c && leb c b'9') || (leb b'a' c && leb c b'f')) && all_lower_hex s

unfoldable pub valid_part : Text → Text → ℕ → Bool
unfolding all_lower_hex starts_with
valid_part part prefix hex_size =
    if not (starts_with prefix part) || not (nat_beq (length part) (length prefix + hex_size))
    then false
    else all_lower_hex (drop (length prefix) part)

-- `isValid(candidate)`
unfoldable pub is_valid : Text → Bool
unfolding valid_part find_byte
is_valid candidate = elim (find_byte b'|' candidate) [
  | none ↦ valid_part candidate (codes "v1:") 40 || valid_part candidate (codes "v2:") 64
  | some separator ↦ elim (find_byte b'|' (drop (suc separator) candidate)) [
    | some again ↦ false
    | none ↦
        valid_part (take separator candidate) (codes "v1:") 40
        && valid_part (drop (suc separator) candidate) (codes "v2:") 64
  ]
]
