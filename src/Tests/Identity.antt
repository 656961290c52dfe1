-- ===== src/Tests/Identity.antt =====
-- Runs of include/utils/TorrentIdentity.hpp, over hashes of two torrents.
use hypertube.Common.{
  ℕ, zero, suc, ◌<◌, ◌≡◌, ◌↔◌, refl, Bool, true, false, [], ◌∷◌, some, arith, Text, length, All,
}
use hypertube.Identity.{InfoHash, id, matches}
use hypertube.Identity.Injective.{matches-id}
use hypertube.Identity.Normalize.{normalize_info_hash}

abbrev pub copies : ℕ → ℕ → Text
copies zero b = []
copies (suc n) b = b ∷ copies n b

pub copies-length : (n b : ℕ) → length (copies n b) ≡ n
copies-length zero b = refl
copies-length (suc n) b = omega (arith, copies-length n b)

pub copies-IsByte : (n b : ℕ) → b < 256 → All (λ c. c < 256) (copies n b)
copies-IsByte zero b h = tt
copies-IsByte (suc n) b h = (h, copies-IsByte n b h)

-- The first byte of a digest tells the torrents apart.
abbrev pub digit : Bool → ℕ
digit true = 1
digit false = 0

pub copies-first : (a b : Bool) → copies 20 (digit a) ≡ copies 20 (digit b) → a ≡ b
copies-first true true e = refl
copies-first true false e = ground arith
copies-first false true e = ground arith
copies-first false false e = refl

pub zeros-IsByte : All (λ c. c < 256) (copies 32 0)
zeros-IsByte = copies-IsByte 32 0 (omega arith)

pub digit-IsByte : (h : Bool) → digit h < 256
digit-IsByte true = omega arith
digit-IsByte false = omega arith

pub no_digest : (g h : Bool) → true ≡ false → copies 20 (digit g) ≡ copies 20 (digit h)
no_digest g h e = ground arith

-- Two torrents with a v1 digest each.
instance abbrev pub two_hashes : InfoHash Bool
two_hashes = record {
  has_v1 = λ h. true;
  has_v2 = λ h. false;
  v1 = λ h. copies 20 (digit h);
  v2 = λ h. copies 32 0;
  v1_size = λ h. copies-length 20 (digit h);
  v2_size = λ h. copies-length 32 0;
  v1_bytes = λ h. copies-IsByte 20 (digit h) (digit-IsByte h);
  v2_bytes = λ h. zeros-IsByte;
  v1_absent = λ g h a b. no_digest g h a;
  v2_absent = λ g h a b. refl;
  ext = λ g h e f. copies-first g h e;
}

matches-id_example : (matches true (id false) ≡ true) ↔ (true ≡ false)
matches-id_example = matches-id true false

abbrev upper_digits : Text
upper_digits = copies 40 b'A'

abbrev lower_digits : Text
lower_digits = copies 40 b'a'

normalize_upper : normalize_info_hash upper_digits ≡ some lower_digits
unfolding normalize_info_hash
normalize_upper = refl
