-- ===== src/Support/Address.antt =====
-- aiohomematic/support/address.py: the addresses of devices and channels.
--
-- An address is a list of code points; the cache of the parsed addresses is left out, and so are the
-- tests by a regular expression and of the keys of paramsets.
pub mod RoundTrip
mod Tests
use aiohomematic.Prelude.{
  ℕ, ◌≡◌, refl, Bool, true, false, Option, none, some, List, [], ◌∷◌, ◌++◌, eqb, if◌then◌else◌,
  Result, ok, err, ◌>>=◌,
}
use aiohomematic.Support.Texts.{split, occurs, same_text}
use aiohomematic.Support.Integers.{Text, ℤ, str, int}

pub data Failure : Type 0 where
  value_error : Failure

-- ADDRESS_SEPARATOR, a colon
abbrev pub separator : ℕ
separator = 58

abbrev pub none_text : Text
none_text = 78 ∷ 111 ∷ 110 ∷ 101 ∷ []

unfoldable pub get_channel_address : Text → Option ℤ → Text
get_channel_address device_address none = device_address
get_channel_address device_address (some channel_no) = device_address ++ separator ∷ str channel_no

-- `int(channel_no)`, unless it is the text `None`
unfoldable pub channel_number : Text → Result Failure (Option ℤ)
channel_number channel_no =
    if same_text channel_no none_text
    then ok none
    else elim (int channel_no) [ none ↦ err value_error | some n ↦ ok (some n) ]

-- The unpacking of the parts into two names
unfoldable pub unpack : List Text → Result Failure (Text × Option ℤ)
unfolding channel_number
unpack (device_address ∷ channel_no ∷ []) =
    channel_number channel_no >>= λ n. ok (device_address, n)
unpack _ = err value_error

unfoldable pub get_split_channel_address : Text → Result Failure (Text × Option ℤ)
unfolding unpack split occurs
get_split_channel_address channel_address =
    if occurs separator channel_address
    then unpack (split separator channel_address)
    else ok (channel_address, none)

unfoldable pub get_device_address : Text → Result Failure Text
unfolding get_split_channel_address
get_device_address address = get_split_channel_address address >>= λ r. ok r.0

unfoldable pub get_channel_no : Text → Result Failure (Option ℤ)
unfolding get_split_channel_address
get_channel_no address = get_split_channel_address address >>= λ r. ok r.1
