-- ===== src/Store/PingPong/Bounds.antt =====
-- aiohomematic/store/dynamic/ping_pong.py: how many tokens a tracker keeps.
use aiohomematic.Prelude.{
  ℕ, ◌+◌, ◌≡◌, ap, ◌∙◌, String, List, [], ◌∷◌, ◌++◌, arith, if_elim, if◌then◌else◌,
}
use aiohomematic.Prelude.Lists.{length}
use aiohomematic.Prelude.Dict.{
  contains, erase, Distinct, Distinct-append_one, Distinct-erase, string_eq,
}
use aiohomematic.Prelude.Keys.{keys, keys-insert, keys-remove, length-erase, Within, Within-erase}
use aiohomematic.Store.Types.{PongTracker, size, add, forget}
use aiohomematic.Store.PingPong.{forget_all}

-- The tokens are the keys of the times, and none is there twice.
pub record IsPaired (t : PongTracker) : Type 0 where
  pub same : keys t.seen_at ≡ t.tokens
  pub distinct : Distinct t.tokens

pub add-IsPaired : (k : String) (now : ℕ) (t : PongTracker) → IsPaired t → IsPaired (add k now t)
unfolding add
add-IsPaired k now t i = record {
  same = keys-insert k now t.seen_at ∙ ap (λ ks. if contains k ks then ks else ks ++ k ∷ []) i.same;
  distinct =
      if_elim Distinct (contains k t.tokens) (λ h. i.distinct)
        (λ h. Distinct-append_one k t.tokens h i.distinct);
}

pub forget-IsPaired : (k : String) (t : PongTracker) → IsPaired t → IsPaired (forget k t)
unfolding forget
forget-IsPaired k t i = record {
  same = keys-remove k t.seen_at ∙ ap (erase k) i.same;
  distinct = Distinct-erase k t.tokens i.distinct;
}

pub forget_all-IsPaired :
    (ks : List String) (t : PongTracker) → IsPaired t → IsPaired (forget_all ks t)
unfolding forget_all
forget_all-IsPaired [] t i = i
forget_all-IsPaired (k ∷ ks) t i = forget_all-IsPaired ks (forget k t) (forget-IsPaired k t i)

pub size-forget_all :
    (ks : List String) (t : PongTracker)
    → Distinct ks
    → Within ks t.tokens
    → size (forget_all ks t) + length ks ≡ size t
unfolding forget_all forget
size-forget_all [] t d w = omega arith
size-forget_all (k ∷ ks) t d w =
    let rest = size-forget_all ks (forget k t) d.1 (Within-erase k ks t.tokens d.0 w.1) in
    omega (arith, rest, length-erase k t.tokens w.0)
