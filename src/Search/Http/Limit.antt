-- ===== src/Search/Http/Limit.antt =====
-- The 10 MB limit on a response.
use hypertube.Common.{
  ◌+◌, ◌≤◌, ◌<◌, ◌≡◌, refl, sym, ap, ◌∙◌, List, [], ◌∷◌, ◌++◌, append_assoc, append-nil, none, some,
  arith, Text, length, length-append, ◌⊎◌, inl, inr,
}
use hypertube.Search.Http.{max_response_size, write_callback, receive}

-- The chunks in a row.
unfoldable pub joined : List Text → Text
joined [] = []
joined (chunk ∷ chunks) = chunk ++ joined chunks

write_callback-cases :
    (body chunk : Text)
    → ((max_response_size < length body + length chunk) × (write_callback body chunk ≡ none))
      ⊎ ((length body + length chunk ≤ max_response_size)
          × (write_callback body chunk ≡ some (body ++ chunk)))
unfolding write_callback
write_callback-cases body chunk = ground arith

receive-from :
    (body : Text) (chunks : List Text)
    → length body ≤ max_response_size
    → ((length body + length (joined chunks) ≤ max_response_size)
        × (receive body chunks ≡ some (body ++ joined chunks)))
      ⊎ ((max_response_size < length body + length (joined chunks)) × (receive body chunks ≡ none))
unfolding receive joined
receive-from body [] h = inl (omega arith, ap some (sym (append-nil body)))
receive-from body (chunk ∷ chunks) h = elim (write_callback-cases body chunk) [
  | inl (over, e) ↦ inr (omega (arith, length-append chunk (joined chunks)), rw (e, receive) refl)
  | inr (fits, e) ↦
      elim (receive-from (body ++ chunk) chunks (omega (arith, length-append body chunk))) [
        | inl (l, r) ↦ inl (
          omega (arith, length-append body chunk, length-append chunk (joined chunks)),
          rw (e, receive) (r ∙ ap some (append_assoc body chunk (joined chunks))),
        )
        | inr (l, r) ↦ inr (
          omega (arith, length-append body chunk, length-append chunk (joined chunks)),
          rw (e, receive) r,
        )
      ]
]

-- A response of at most 10 MB arrives whole, however it is cut into chunks, and a longer one is
-- given up.
pub receive_limit :
    (chunks : List Text)
    → ((length (joined chunks) ≤ max_response_size) × (receive [] chunks ≡ some (joined chunks)))
      ⊎ ((max_response_size < length (joined chunks)) × (receive [] chunks ≡ none))
receive_limit chunks = elim (receive-from [] chunks (omega arith)) [
  | inl (l, r) ↦ inl (omega arith, r)
  | inr (l, r) ↦ inr (omega arith, r)
]
