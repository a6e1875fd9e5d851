-- ===== src/Support/Address/Tests.antt =====
-- Addresses at concrete texts.
use aiohomematic.Prelude.{◌≡◌, refl, some, [], ◌∷◌, ok}
use aiohomematic.Support.Integers.{Text, pos}
use aiohomematic.Support.Address.{
  get_channel_address, get_split_channel_address, get_device_address, get_channel_no,
}
use aiohomematic.Support.Texts.{occurs}
use aiohomematic.Support.Address.RoundTrip.{split-get}

-- The address `V1`.
abbrev device : Text
device = 86 ∷ 49 ∷ []

split-get_example :
    let address = get_channel_address device (some (pos 12)) in
    (get_split_channel_address address ≡ ok (device, some (pos 12)))
    × ((get_device_address address ≡ ok device) × (get_channel_no address ≡ ok (some (pos 12))))
unfolding occurs
split-get_example = split-get device (some (pos 12)) refl

-- The address `V::`.
abbrev colons : Text
colons = 86 ∷ 58 ∷ 58 ∷ []
