-- ===== src/EventBroker/Ids.antt =====
-- `incrementID` of event_broker.go: the identifier after the last one of a page of `Claim`.
use beeorm.Prelude.{
  split, ℕ, ◌+◌, ◌≤◌, ◌<◌, ◌≡◌, refl, ap, ◌∙◌, Bool, true, false, ◌&&◌, List, [], ◌∷◌, ◌++◌, leb,
  ◌==◌, if◌then◌else◌, All, Text, codes, format_uint, parse_uint, parse_uint-format_uint,
  format_uint-digits, Result, ok, panic, index_out_of_range, arith,
}

abbrev pub max_int : ℕ
max_int = 9_223_372_036_854_775_807

abbrev pub are_digits : Text → Bool
are_digits [] = true
are_digits (c ∷ s) = leb b'0' c && leb c b'9' && are_digits s

-- strconv.Atoi without its error: 0 for what is not a number, the greatest `int` for what is too
-- large. A sign is not modelled, since the parts of an identifier are digits.
unfoldable pub atoi : Text → ℕ
atoi s = if are_digits s then (if leb (parse_uint s) max_int then parse_uint s else max_int) else 0

-- strconv.Itoa(counter + 1), which wraps around to the least `int`.
unfoldable pub itoa_next : ℕ → Text
itoa_next counter =
    if counter == max_int then codes "-" ++ format_uint (max_int + 1) else format_uint (counter + 1)

abbrev join_next : List Text → Result Text
join_next [] = panic index_out_of_range
join_next (ms ∷ []) = panic index_out_of_range
join_next (ms ∷ counter ∷ rest) = ok (ms ++ (codes "-" ++ itoa_next (atoi counter)))

unfoldable pub increment_id : Text → Result Text
increment_id id = join_next (split b'-' id)

-- How Redis prints an identifier: milliseconds, then a number within the millisecond.
unfoldable pub stream_id : ℕ → ℕ → Text
stream_id ms counter = format_uint ms ++ (codes "-" ++ format_uint counter)

abbrev AreDigits : Text → Type 0
AreDigits s = All (λ c. (b'0' ≤ c) × (c ≤ b'9')) s

not_dash : (x : ℕ) → b'0' ≤ x → (x == b'-') ≡ false
not_dash x h = ground arith

split-digits : (s : Text) → AreDigits s → split b'-' s ≡ s ∷ []
split-digits [] h = refl
split-digits (x ∷ s) h = rw (split-digits s h.1, not_dash x h.0.0) refl

split-dash : (s t : Text) → AreDigits s → split b'-' (s ++ (b'-' ∷ t)) ≡ s ∷ split b'-' t
split-dash [] t h = refl
split-dash (x ∷ s) t h = rw (split-dash s t h.1, not_dash x h.0.0) refl

are_digits_lem : (s : Text) → AreDigits s → are_digits s ≡ true
are_digits_lem [] h = refl
are_digits_lem (c ∷ s) ((low, high), h) = ground (arith, are_digits_lem s h)

atoi-format_uint : (n : ℕ) → n ≤ max_int → atoi (format_uint n) ≡ n
unfolding atoi
atoi-format_uint n h =
    rw (are_digits_lem (format_uint n) (format_uint-digits n), parse_uint-format_uint n)
      (ground arith)

increment_id-stream_id :
    (ms counter : ℕ)
    → counter ≤ max_int
    → increment_id (stream_id ms counter) ≡ ok (format_uint ms ++ (codes "-" ++ itoa_next counter))
unfolding increment_id stream_id
increment_id-stream_id ms counter h =
    rw
      (
        split-dash (format_uint ms) (format_uint counter) (format_uint-digits ms),
        split-digits (format_uint counter) (format_uint-digits counter),
        atoi-format_uint counter h,
      )
      refl

itoa_next-below : (n : ℕ) → n < max_int → itoa_next n ≡ format_uint (n + 1)
unfolding itoa_next
itoa_next-below n h = ground arith

itoa_next-max : (n : ℕ) → n ≡ max_int → itoa_next n ≡ codes "-" ++ format_uint (max_int + 1)
unfolding itoa_next
itoa_next-max n h = ground arith

-- `incrementID` does not panic on an identifier of Redis and gives the next one of its millisecond
-- where the number within the millisecond is below the greatest `int`; at the greatest `int` the
-- number wraps around, and the result has a second dash.
pub increment_id_lem :
    (ms counter : ℕ)
    → counter ≤ max_int
    → (counter < max_int → increment_id (stream_id ms counter) ≡ ok (stream_id ms (counter + 1)))
      × (counter ≡ max_int
          → increment_id (stream_id ms counter)
            ≡ ok (format_uint ms ++ (codes "--" ++ format_uint (max_int + 1))))
unfolding stream_id
increment_id_lem ms counter h = (
  λ below.
      increment_id-stream_id ms counter h
      ∙ ap (λ t. ok (format_uint ms ++ (codes "-" ++ t))) (itoa_next-below counter below),
  λ greatest.
      increment_id-stream_id ms counter h
      ∙ ap (λ t. ok (format_uint ms ++ (codes "-" ++ t))) (itoa_next-max counter greatest),
)
