-- ===== src/Hashmap/Carry.antt =====
-- What the loop of `hm_insert` carries to the next bucket.
use orca_db.Base.{ℕ, ◌+◌, ◌%◌, ◌≤◌, ◌<◌, ◌≡◌, ◌≢◌, ◌∙◌, ap, some, List, arith, get_elem?, set}
use orca_db.Hashmap.{Node, is_tomb}
use orca_db.Hashmap.Index.{suc-mod-cancel, congr-mod}
use orca_db.Hashmap.Shape.{bucket, bucket-set_self, IsShape, Fits}

module _ {ℓ} {K V : Type ℓ} (b c : ℕ) (t : List (Node K V)) (pos : 0 < c) (shape : IsShape b c t)
    (cur n : Node K V) (x : ℕ) (fits : Fits b c t cur x) (at_x : bucket c t x ≡ some n)
    (occ : n.hash ≢ 0) where
  home_next : (hash dib : ℕ) → (hash + dib) % c ≡ x % c → (hash + (dib + 1)) % c ≡ (x + 1) % c
  home_next hash dib e = ap (λ i. i % c) (omega arith) ∙ congr-mod c (hash + dib) x 1 e

  -- The entry that was swapped out, behind the one that took its bucket.
  pub swap-Fits :
      n.dib ≤ cur.dib
      → n.dib + 1 < b
      → Fits b c (set t (x % c) cur) (record n { dib = n.dib + 1 }) (x + 1)
  unfolding is_tomb
  swap-Fits closer room = record {
    occupied = occ;
    alive = shape.whole x n at_x;
    near = room;
    home = home_next n.hash n.dib (shape.placed x n at_x occ);
    behind = λ y p e at_y far.
        let here = bucket-set_self c t shape.width pos x y cur (suc-mod-cancel c y x pos e) in
        ground (arith, here, fits.occupied);
  }

  -- The carried entry, behind one that is at least as far from its home.
  pub pass-Fits :
      cur.dib ≤ n.dib → cur.dib + 1 < b → Fits b c t (record cur { dib = cur.dib + 1 }) (x + 1)
  unfolding is_tomb
  pass-Fits farther room = record {
    occupied = fits.occupied;
    alive = fits.alive;
    near = room;
    home = home_next cur.hash cur.dib fits.home;
    behind = λ y p e at_y far.
        let here = ap (λ i. get_elem? t i) (suc-mod-cancel c y x pos e) ∙ at_x in
        ground (arith, here);
  }
