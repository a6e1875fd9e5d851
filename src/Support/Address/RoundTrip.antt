-- ===== src/Support/Address/RoundTrip.antt =====
-- aiohomematic/support/address.py: the parts of an address that was put together.
use aiohomematic.Prelude.{
  ◌≤◌, ◌≡◌, refl, ap, ◌∙◌, false, Option, none, some, List, [], ◌∷◌, eqb, ok, err, ◌>>=◌, arith,
}
use aiohomematic.Prelude.Lists.{All, length, count}
use aiohomematic.Support.Texts.{
  split, occurs, same_text, split-plain, split-append, occurs-append_sep, str_plain, length-split,
  occurs-count,
}
use aiohomematic.Support.Integers.{
  Text, ℤ, pos, negsuc, str, int-str, decimal, decimal-IsDigit, IsDigit,
}
use aiohomematic.Support.Address.{
  value_error, separator, none_text, get_channel_address, channel_number, unpack,
  get_split_channel_address, get_device_address, get_channel_no,
}

digits_not_none : (s : Text) → All IsDigit s → same_text s none_text ≡ false
digits_not_none [] a = refl
digits_not_none (c ∷ s) a = ground (arith, a.0)

str_not_none : (n : ℤ) → same_text (str n) none_text ≡ false
unfolding str
str_not_none (pos n) = digits_not_none (decimal n) (decimal-IsDigit n)
str_not_none (negsuc n) = refl

channel_number-str : (n : ℤ) → channel_number (str n) ≡ ok (some n)
unfolding channel_number
channel_number-str n = rw (str_not_none n, int-str n) refl

split-get_parts :
    (device_address : Text) (channel_no : Option ℤ)
    → occurs separator device_address ≡ false
    → get_split_channel_address (get_channel_address device_address channel_no)
      ≡ ok (device_address, channel_no)
unfolding get_split_channel_address get_channel_address unpack
split-get_parts device_address none h = rw h refl
split-get_parts device_address (some n) h =
    let parts =
      split-append separator device_address (str n) h
      ∙ ap (λ ps. device_address ∷ ps)
          (split-plain separator (str n) (str_plain separator n refl refl)) in
    rw (occurs-append_sep separator device_address (str n), parts, channel_number-str n) refl

-- An address that is put together from a device's address without a colon and any channel number,
-- or none, is taken apart into the same two, also by the functions that return one of them.
pub split-get :
    (device_address : Text) (channel_no : Option ℤ)
    → occurs separator device_address ≡ false
    → let address = get_channel_address device_address channel_no in
      (get_split_channel_address address ≡ ok (device_address, channel_no))
      × ((get_device_address address ≡ ok device_address)
          × (get_channel_no address ≡ ok channel_no))
unfolding get_device_address get_channel_no
split-get device_address channel_no h =
    let parts = split-get_parts device_address channel_no h in
    (parts, (ap (λ r. r >>= λ p. ok p.0) parts, ap (λ r. r >>= λ p. ok p.1) parts))

unpack_many : (ps : List Text) → 3 ≤ length ps → unpack ps ≡ err value_error
unfolding unpack
unpack_many [] h = refl
unpack_many (p ∷ []) h = refl
unpack_many (p ∷ q ∷ []) h = absurd (omega (arith, h))
unpack_many (p ∷ q ∷ r ∷ ps) h = refl

-- An address with two colons or more is refused with a ValueError, by each of the three functions.
pub many_colons :
    (address : Text)
    → 2 ≤ count (λ x. eqb x separator) address
    → (get_split_channel_address address ≡ err value_error)
      × ((get_device_address address ≡ err value_error)
          × (get_channel_no address ≡ err value_error))
unfolding get_split_channel_address get_device_address get_channel_no
many_colons address h =
    let refused =
      unpack_many (split separator address) (omega (arith, h, length-split separator address)) in
    rw (occurs-count separator address (omega (arith, h)), refused) (refl, (refl, refl))
