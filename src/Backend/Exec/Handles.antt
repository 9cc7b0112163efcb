-- ===== src/Backend/Exec/Handles.antt =====
-- The two ends of a pipe of the backend: whichever is asked for first, the other is the other end of
-- the same pipe of the system, and each is given out once.
use nak.Base.{ℕ, ◌≡◌, refl, none, some, Outcome, ok, panic, ◌>>=◌, insert, ==_refl, Returns}
use nak.Backend.Exec.{System, Exec, Pair, read_end, write_end}

module _ {W F C : Type 0} (system : System W F C) where
  abbrev pub write_first : Exec W F C → ℕ → Outcome ((F × F) × Exec W F C)
  write_first e p = do
    (w, e₁) ← write_end system e p
    (r, e₂) ← read_end system e₁ p
    ok ((r, w), e₂)

  abbrev pub read_first : Exec W F C → ℕ → Outcome ((F × F) × Exec W F C)
  read_first e p = do
    (r, e₁) ← read_end system e p
    (w, e₂) ← write_end system e₁ p
    ok ((r, w), e₂)

  -- The ends are those of the given pipe, and neither can be asked for again.
  abbrev pub AreEnds : F × F → ℕ → (F × F) × Exec W F C → Type 0
  AreEnds ends p (given, e) =
      (given ≡ ends) × (read_end system e p ≡ panic) × (write_end system e p ≡ panic)

  taken :
      (e : Exec W F C) (p : ℕ)
      → e.open_handles p ≡ some (record { read_side = none; write_side = none })
      → (read_end system e p ≡ panic) × (write_end system e p ≡ panic)
  unfolding read_end write_end
  taken e p h = (rw (h, read_end) refl, rw (h, write_end) refl)

  new_write_end :
      (e : Exec W F C) (p : ℕ) (r w : F) (world : W)
      → e.open_handles p ≡ none
      → system.make_pipe e.world ≡ ok ((r, w), world)
      → write_end system e p
        ≡ ok (
          w,
          record e {
            world = world;
            open_handles =
                insert e.open_handles p (record { read_side = some r; write_side = none });
          },
        )
  unfolding write_end
  new_write_end e p r w world h m = rw (h, write_end) rw m refl

  new_read_end :
      (e : Exec W F C) (p : ℕ) (r w : F) (world : W)
      → e.open_handles p ≡ none
      → system.make_pipe e.world ≡ ok ((r, w), world)
      → read_end system e p
        ≡ ok (
          r,
          record e {
            world = world;
            open_handles =
                insert e.open_handles p (record { read_side = none; write_side = some w });
          },
        )
  unfolding read_end
  new_read_end e p r w world h m = rw (h, read_end) rw m refl

  open_write_end :
      (e : Exec W F C) (p : ℕ) (pair : Pair F) (w : F)
      → e.open_handles p ≡ some pair
      → pair.write_side ≡ some w
      → write_end system e p
        ≡ ok (
          w,
          record e { open_handles = insert e.open_handles p (record pair { write_side = none }) },
        )
  unfolding write_end
  open_write_end e p pair w h s = rw (h, write_end) rw s refl

  open_read_end :
      (e : Exec W F C) (p : ℕ) (pair : Pair F) (r : F)
      → e.open_handles p ≡ some pair
      → pair.read_side ≡ some r
      → read_end system e p
        ≡ ok (
          r,
          record e { open_handles = insert e.open_handles p (record pair { read_side = none }) },
        )
  unfolding read_end
  open_read_end e p pair r h s = rw (h, read_end) rw s refl

  -- For a pipe of which no end was asked for, and where the system makes a pipe: the two ends that are
  -- given out, in either order, are the two ends of that one pipe, and then asking for either again
  -- panics.
  pub write_first-read_first :
      (e : Exec W F C) (p : ℕ) (ends : F × F) (world : W)
      → e.open_handles p ≡ none
      → system.make_pipe e.world ≡ ok (ends, world)
      → Returns (AreEnds ends p) (write_first e p) × Returns (AreEnds ends p) (read_first e p)
  write_first-read_first e p (r, w) world h m =
      let reading : Pair F = record { read_side = some r; write_side = none } in
      let writing : Pair F = record { read_side = none; write_side = some w } in
      let e₁ : Exec W F C = record e {
        world = world;
        open_handles = insert e.open_handles p reading;
      } in
      let e₂ : Exec W F C = record e {
        world = world;
        open_handles = insert e.open_handles p writing;
      } in
      let none_left : Pair F = record { read_side = none; write_side = none } in
      let done₁ =
        taken (record e₁ { open_handles = insert e₁.open_handles p none_left }) p
          (rw (==_refl p) refl) in
      let done₂ =
        taken (record e₂ { open_handles = insert e₂.open_handles p none_left }) p
          (rw (==_refl p) refl) in
      (
        rw (new_write_end e p r w world h m) rw
            (open_read_end e₁ p reading r (rw (==_refl p) refl) refl) (refl, done₁.0, done₁.1),
        rw (new_read_end e p r w world h m) rw
            (open_write_end e₂ p writing w (rw (==_refl p) refl) refl) (refl, done₂.0, done₂.1),
      )
