-- ===== src/DataPointKey.antt =====
-- aiohomematic/const.py: the key of a data point.
use aiohomematic.Prelude.{
  ℕ, ◌≡◌, refl, sym, ap, ◌∙◌, subst, ◌↔◌, String, Bool, true, ◌&&◌, eqb, arith, if◌then◌else◌,
}
use aiohomematic.Prelude.Dict.{Hashable, ◌==◌, string_eq}

pub data ParamsetKey : Type 0 where
  calculated combined dummy link master service values : ParamsetKey

pub record DataPointKey : Type 0 where
  pub interface_id : String
  pub channel_address : String
  pub paramset_key : ParamsetKey
  pub parameter : String

abbrev pub rank : ParamsetKey → ℕ
rank calculated = 0
rank combined = 1
rank dummy = 2
rank link = 3
rank master = 4
rank service = 5
rank values = 6

abbrev unrank : ℕ → ParamsetKey
unrank n =
    if eqb n 0
    then calculated
    else (if eqb n 1
        then combined
        else (if eqb n 2
            then dummy
            else (if eqb n 3
                then link
                else (if eqb n 4 then master else (if eqb n 5 then service else values)))))

unrank-rank : (k : ParamsetKey) → unrank (rank k) ≡ k
unrank-rank calculated = refl
unrank-rank combined = refl
unrank-rank dummy = refl
unrank-rank link = refl
unrank-rank master = refl
unrank-rank service = refl
unrank-rank values = refl

abbrev pub same_key : DataPointKey → DataPointKey → Bool
same_key j k =
    j.interface_id == k.interface_id
    && (j.channel_address == k.channel_address
        && (eqb (rank j.paramset_key) (rank k.paramset_key) && j.parameter == k.parameter))

same_key_refl : (k : DataPointKey) → same_key k k ≡ true
same_key_refl k = ground (
  arith,
  string_eq.equal_iff k.interface_id k.interface_id,
  string_eq.equal_iff k.channel_address k.channel_address,
  string_eq.equal_iff k.parameter k.parameter,
)

ext :
    (j k : DataPointKey)
    → j.interface_id ≡ k.interface_id
    → j.channel_address ≡ k.channel_address
    → j.paramset_key ≡ k.paramset_key
    → j.parameter ≡ k.parameter
    → j ≡ k
ext j k a b c d i = record {
  interface_id = a i;
  channel_address = b i;
  paramset_key = c i;
  parameter = d i;
}

pub same_key_iff : (j k : DataPointKey) → (same_key j k ≡ true) ↔ (j ≡ k)
same_key_iff j k =
    let ranks : same_key j k ≡ true → rank j.paramset_key ≡ rank k.paramset_key =
      λ h. ground (arith, h) in
    let same : same_key j k ≡ true → j ≡ k = λ h.
      ext j k (ground (arith, h, string_eq.equal_iff j.interface_id k.interface_id))
        (ground (arith, h, string_eq.equal_iff j.channel_address k.channel_address))
        (sym (unrank-rank j.paramset_key) ∙ (ap unrank (ranks h) ∙ unrank-rank k.paramset_key))
        (ground (arith, h, string_eq.equal_iff j.parameter k.parameter)) in
    (same, λ p. subst (λ i. same_key j i ≡ true) p (same_key_refl j))

-- The named tuple as a key of a `dict`.
instance abbrev pub key_eq : Hashable DataPointKey
key_eq = record { equal = same_key; equal_iff = same_key_iff }
