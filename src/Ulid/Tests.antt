-- ===== src/Ulid/Tests.antt =====
-- Ids at concrete times.
use dev_ops_pipeline_orchest.Prelude.{[], arith, false, none, refl, some, ◌<◌, ◌∷◌, ◌≡◌}
use dev_ops_pipeline_orchest.Ulid.Ids.{Generator, id_of, increment, new_at, next_rand}
use dev_ops_pipeline_orchest.Ulid.Order.{AreBytes, new_at_grows, value}

abbrev before : Generator
before = record {
  last_ms = 1700000000000;
  last_rand = 0 ∷ 1 ∷ 2 ∷ 3 ∷ 4 ∷ 5 ∷ 6 ∷ 7 ∷ 8 ∷ 255 ∷ [];
}

abbrev after : Generator
after = record { last_ms = 1700000000000; last_rand = 0 ∷ 1 ∷ 2 ∷ 3 ∷ 4 ∷ 5 ∷ 6 ∷ 7 ∷ 9 ∷ 0 ∷ [] }

before-AreBytes : AreBytes 10 before.last_rand
before-AreBytes = (refl, ground arith)

before-room : (increment before.last_rand).1 ≡ false
unfolding increment
before-room = refl

new_at-before : new_at 1700000000000 none before ≡ some after
unfolding new_at increment next_rand
new_at-before = refl

new_at_grows_example :
    (value 0 (id_of before) < value 0 (id_of after)) × AreBytes 10 after.last_rand
new_at_grows_example =
    new_at_grows 1700000000000 none before after before-AreBytes (λ fresh h. absurd (ground arith))
      (omega arith) (omega arith) before-room new_at-before
