-- ===== src/SplitProxy/Request/Header.antt =====
-- The loop of `recv_headers`: what it returns of what the peer sends.
use proxy_gateway_console_pu.Prelude.{
  sym, subst, false, ◌∙◌, ◌+◌, ℕ, arith, refl, ltb, eq_iff, ap, ◌==◌, Bool-cases, inr, inl, ◌<◌,
  ◌++◌, ◌⊎◌, true, ◌≡◌, ◌≤◌, ◌<>◌, str_length, String, [], ◌∷◌,
}
use proxy_gateway_console_pu.SplitProxy.Request.{
  Reads, recv_loop, recv_headers, has_end, header_limit,
}
use proxy_gateway_console_pu.Outcome.{Exception, Outcome, value_error, raised, ok}
use text.Mathlib.TextLemmas.{append-nil, append_assoc, nil-append, cons-append}

-- The text that reads give.
unfoldable pub text_of : Reads → String
text_of [] = ""
text_of (ok chunk ∷ chunks) = chunk <> text_of chunks
text_of (raised e ∷ chunks) = text_of chunks

-- The headers that were read: all that was received but the reads that are left, no more than the limit,
-- and complete unless the peer stopped.
pub record IsRead (got : String) (left chunks : Reads) (before_it : String) : Type 0 where
  pub nothing_lost : got <> text_of left ≡ before_it <> text_of chunks
  pub bounded : str_length got ≤ header_limit
  pub complete :
      (has_end got ≡ true) ⊎ ((left ≡ []) ⊎ ((used : Reads) × (chunks ≡ used ++ ok "" ∷ left)))

-- A read raised e, before the headers were complete.
abbrev pub Broke : Exception → Reads → String → Type 0
Broke e chunks before_it =
    (used : Reads) × (left : Reads) × (chunks ≡ used ++ raised e ∷ left)
    × (has_end (before_it <> text_of used) ≡ false)

-- The three ends of the loop.
abbrev pub Ended : String → Reads → Outcome (String × Reads) → Type 0
Ended got chunks result =
    ((r : String) × (left : Reads) × (result ≡ ok (r, left)) × IsRead r left chunks got)
    ⊎ (((result ≡ raised (value_error "request header too large"))
          × (header_limit < str_length (got <> text_of chunks)))
        ⊎ ((e : Exception) × (result ≡ raised e) × Broke e chunks got))

str_length-append : (s t : String) → str_length (s <> t) ≡ str_length s + str_length t
unfolding str_length
str_length-append String.[] t = omega (arith, ap str_length (nil-append t))
str_length-append (String.◌∷◌ c s) t =
    omega (arith, ap str_length (cons-append c s t), str_length-append s t)

longer_than : (n : ℕ) → ltb header_limit n ≡ true → header_limit < n
longer_than n h = ground arith

at_most : (n : ℕ) → ltb header_limit n ≡ false → n ≤ header_limit
at_most n h = ground arith

one_more :
    (got : String) {chunk : Outcome String} {left chunks : Reads}
    → (has_end got ≡ true) ⊎ ((left ≡ []) ⊎ ((used : Reads) × (chunks ≡ used ++ ok "" ∷ left)))
    → (has_end got ≡ true)
      ⊎ ((left ≡ []) ⊎ ((used : Reads) × (chunk ∷ chunks ≡ used ++ ok "" ∷ left)))
one_more got (inl e) = inl e
one_more got (inr (inl e)) = inr (inl e)
one_more got {chunk} (inr (inr (used, e))) = inr (inr (chunk ∷ used, ap (λ xs. chunk ∷ xs) e))

-- What the loop ends with after a chunk is what it ends with from there.
after_chunk :
    (got chunk : String) (chunks : Reads) (result : Outcome (String × Reads))
    → Ended (got <> chunk) chunks result
    → Ended got (ok chunk ∷ chunks) result
unfolding text_of
after_chunk got chunk chunks result (inl (r, left, q, is)) = inl (
  r,
  left,
  q,
  record {
    nothing_lost = is.nothing_lost ∙ append_assoc got chunk (text_of chunks);
    bounded = is.bounded;
    complete = one_more r is.complete;
  },
)
after_chunk got chunk chunks result (inr (inl (q, big))) = inr (
    inl (
      q,
      subst (λ (t : String). header_limit < str_length t) (append_assoc got chunk (text_of chunks))
          big,
    ))
after_chunk got chunk chunks result (inr (inr (e, q, (used, left, is, open_still)))) = inr (
    inr (
      e,
      q,
      (
        ok chunk ∷ used,
        left,
        ap (λ xs. ok chunk ∷ xs) is,
        subst (λ (t : String). has_end t ≡ false) (append_assoc got chunk (text_of used))
            open_still,
      ),
    ))

recv_loop-Ended :
    (got : String) (chunks : Reads)
    → str_length got ≤ header_limit
    → Ended got chunks (recv_loop header_limit got chunks)
unfolding recv_loop text_of
recv_loop-Ended got [] bound =
    inl (got, [], refl, record { nothing_lost = refl; bounded = bound; complete = inr (inl refl) })
recv_loop-Ended got (raised x ∷ chunks) bound = elim (Bool-cases (has_end got)) [
  | inl e ↦ inl (
    got,
    raised x ∷ chunks,
    rw e refl,
    record { nothing_lost = refl; bounded = bound; complete = inl e },
  )
  | inr e ↦ inr (
      inr (
        x,
        rw e refl,
        ([], chunks, refl, subst (λ (t : String). has_end t ≡ false) (sym (append-nil got)) e),
      ))
]
recv_loop-Ended got (ok chunk ∷ chunks) bound = elim (Bool-cases (has_end got)) [
  | inl e ↦ inl (
    got,
    ok chunk ∷ chunks,
    rw e refl,
    record { nothing_lost = refl; bounded = bound; complete = inl e },
  )
  | inr e ↦ elim (Bool-cases (chunk == "")) [
    | inl c ↦ inl (
      got,
      chunks,
      rw (e, c) refl,
      record {
        nothing_lost = rw ((eq_iff chunk "").0 c, nil-append (text_of chunks)) refl;
        bounded = bound;
        complete = inr (inr ([], ap (λ s. ok s ∷ chunks) ((eq_iff chunk "").0 c)));
      },
    )
    | inr c ↦ elim (Bool-cases (ltb header_limit (str_length (got <> chunk)))) [
      | inl big ↦ inr (
          inl (
            rw (e, c, big) refl,
            omega (
              arith,
              str_length-append got (chunk <> text_of chunks),
              str_length-append chunk (text_of chunks),
              str_length-append got chunk,
              longer_than (str_length (got <> chunk)) big,
            ),
          ))
      | inr small ↦ after_chunk got chunk chunks _ (
          rw (e, c, small)
            (recv_loop-Ended (got <> chunk) chunks (at_most (str_length (got <> chunk)) small)))
    ]
  ]
]

-- Of any sequence of reads, `recv_headers` returns no more than the limit, loses nothing of what came, and
-- goes on to the empty line unless the peer ends the stream; or it raises `ValueError`, and then more than
-- the limit came; or it raises what a read raised before the empty line came.
pub recv_headers-IsRead : (chunks : Reads) → Ended "" chunks (recv_headers chunks)
unfolding recv_headers str_length
recv_headers-IsRead chunks = recv_loop-Ended "" chunks (omega arith)
