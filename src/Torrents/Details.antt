-- ===== src/Torrents/Details.antt =====
-- The details of torrents in src/app/TorrentManager.cpp: `requestDetailsRefresh`,
-- `getDetailsSnapshot` and `detailWorkerLoop`. `X` is a snapshot without its revision; an array of maps
-- over the three sections is one map over pairs of a hash and a section.
pub mod Queue
use hypertube.Common.{
  ℕ, ◌+◌, ◌-◌, ◌%◌, ◌^◌, ◌≡◌, refl, ◌↔◌, Bool, true, false, not, ◌&&◌, ◌||◌, List, [], ◌∷◌, ◌++◌,
  Option, none, some, arith, ltb, if◌then◌else◌, if_rule, if_cases, option_rule, get_or_else, elem,
  keep, Distinct, Assoc, lookup, insert, Eq, ◌==◌,
}

pub data TorrentDetailSection : Type 0 where
  files peers trackers : TorrentDetailSection

abbrev pub same_section : TorrentDetailSection → TorrentDetailSection → Bool
same_section files files = true
same_section peers peers = true
same_section trackers trackers = true
same_section _ _ = false

pub same_section_iff : (a b : TorrentDetailSection) → (same_section a b ≡ true) ↔ (a ≡ b)
same_section_iff files files = (λ e. refl, λ e. refl)
same_section_iff files peers = ground arith
same_section_iff files trackers = ground arith
same_section_iff peers files = ground arith
same_section_iff peers peers = (λ e. refl, λ e. refl)
same_section_iff peers trackers = ground arith
same_section_iff trackers files = ground arith
same_section_iff trackers peers = ground arith
same_section_iff trackers trackers = (λ e. refl, λ e. refl)

pub record DetailRequest (H : Type 0) : Type 0 where
  pub hash : H
  pub section : TorrentDetailSection

abbrev pub same_request : {H : Type 0} ⦃k : Eq H⦄ → DetailRequest H → DetailRequest H → Bool
same_request ⦃k⦄ a b = k.beq a.hash b.hash && same_section a.section b.section

pub same_request_iff :
    {H : Type 0} ⦃k : Eq H⦄ (a b : DetailRequest H) → (same_request a b ≡ true) ↔ (a ≡ b)
same_request_iff ⦃k⦄ a b =
    ground (arith, k.beq_iff a.hash b.hash, same_section_iff a.section b.section)

instance abbrev pub request_eq : {H : Type 0} ⦃k : Eq H⦄ → Eq (DetailRequest H)
request_eq = record { beq = same_request; beq_iff = same_request_iff }

pub record Details (H X : Type 0) : Type 0 where
  pub detail_requests : List (DetailRequest H)
  pub pending_detail_requests : List (DetailRequest H)
  -- A snapshot with its revision; `none` where there was nothing to collect.
  pub detail_cache : Assoc (DetailRequest H) (Option (X × ℕ))
  pub detail_revisions : Assoc (DetailRequest H) ℕ
  pub detail_last_refresh : Assoc (DetailRequest H) ℕ
  pub stop_detail_worker : Bool

-- The shortest time between two refreshes, in milliseconds.
abbrev pub refresh_interval : TorrentDetailSection → ℕ
refresh_interval files = 500
refresh_interval peers = 1000
refresh_interval trackers = 5000

module _ {H X : Type 0} ⦃k : Eq H⦄ where
  -- The steady clock stands at `now`, never before the time of a refresh.
  pub refreshed_lately : ℕ → DetailRequest H → Details H X → Bool
  refreshed_lately now q s = elim (lookup q s.detail_last_refresh) [
    | none ↦ false
    | some last ↦ ltb (now - last) (refresh_interval q.section)
  ]

  unfoldable pub request_details_refresh : ℕ → DetailRequest H → Details H X → Details H X
  unfolding refreshed_lately
  request_details_refresh now q s =
      if refreshed_lately now q s
      then s
      else if elem q s.pending_detail_requests
      then s
      else record s {
        pending_detail_requests = q ∷ s.pending_detail_requests;
        detail_requests = s.detail_requests ++ q ∷ [];
      }

  -- The first part of the round of `detailWorkerLoop`: the front of the queue, or none where it is
  -- empty, and the thread waits or ends.
  pub take_at : List (DetailRequest H) → Details H X → Option (DetailRequest H) × Details H X
  take_at [] s = (none, s)
  take_at (q ∷ rest) s = (
    some q,
    record s {
      detail_requests = rest;
      pending_detail_requests = keep (λ p. not (p == q)) s.pending_detail_requests;
    },
  )

  unfoldable pub take_request : Details H X → Option (DetailRequest H) × Details H X
  unfolding take_at
  take_request s = take_at s.detail_requests s

  -- The last part of the round: what `collectDetails` returned is stored under a new revision.
  unfoldable pub publish : DetailRequest H → Option X → ℕ → Details H X → Details H X
  publish q snapshot now s =
      let revision = (get_or_else 0 (lookup q s.detail_revisions) + 1) % 2 ^ 64 in
      record s {
        detail_revisions = insert q revision s.detail_revisions;
        detail_cache =
            insert q (elim snapshot [ none ↦ none | some x ↦ some (x, revision) ]) s.detail_cache;
        detail_last_refresh = insert q now s.detail_last_refresh;
      }

  -- `getDetailsSnapshot`
  unfoldable pub get_details_snapshot : DetailRequest H → Details H X → Option (X × ℕ)
  get_details_snapshot q s = get_or_else none (lookup q s.detail_cache)
