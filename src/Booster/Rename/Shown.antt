-- ===== src/Booster/Rename/Shown.antt =====
-- What `renameProcess` of src/launcherlib/booster.cpp leaves in the memory of the arguments.
use touch_applauncherd.Common.{
  ℕ, zero, suc, ◌-◌, ◌≤◌, ◌<◌, ◌≡◌, refl, sym, ap, ◌∙◌, false, ◌==◌, ltb, if◌then◌else◌, List, [],
  ◌∷◌, ◌++◌, map, append_assoc, some, Text, codes, length, length-append, drop, take, set,
  replicate, arith, Bool-cases, inl, inr,
}
use touch_applauncherd.Common.Exits.{done}
use touch_applauncherd.Os.{Os, Call}
use touch_applauncherd.AppData.{Arg, str}
use touch_applauncherd.Booster.{Booster}
use touch_applauncherd.Booster.Rename.{
  new_argv, overwrite, new_area, fill_area, name_process, first_arg, space_available,
  rename_process,
}

-- The texts one after the other, each with a NUL.
abbrev pub flat : List Text → List ℕ
flat [] = []
flat (s ∷ ss) = s ++ 0 ∷ flat ss

-- What `n` bytes show of a block: all of it and zeros, or as much as fits, cut off by a NUL.
abbrev pub shown : ℕ → List ℕ → List ℕ
shown n block =
    if ltb n (length block)
    then take (n - 1) block ++ 0 ∷ []
    else block ++ replicate (n - length block) 0

new_argv-flat :
    (ss : List Text) (rest : List Arg) → new_argv (length ss) (map str ss ++ rest) ≡ some (flat ss)
unfolding new_argv
new_argv-flat [] rest = refl
new_argv-flat (s ∷ ss) rest = rw (new_argv-flat ss rest) refl

length-replicate : (n : ℕ) → length {A = ℕ} (replicate n 0) ≡ n
length-replicate zero = refl
length-replicate (suc n) = ap suc (length-replicate n)

drop_zeros :
    (n space : ℕ) (tail : List ℕ)
    → n ≤ space
    → drop n (replicate space 0 ++ tail) ≡ replicate (space - n) 0 ++ tail
drop_zeros zero space tail h = rw (let e : space - 0 ≡ space = omega arith in e) refl
drop_zeros (suc n) zero tail h = absurd (omega arith)
drop_zeros (suc n) (suc space) tail h =
    drop_zeros n space tail (omega arith)
    ∙ ap (λ (k : ℕ). replicate k 0 ++ tail)
        (let e : space - n ≡ suc space - suc n = omega arith in e)

-- The last byte copied becomes a NUL.
set_last :
    (k : ℕ) (block rest : List ℕ)
    → k < length block
    → set (take (suc k) block ++ rest) k 0 ≡ (take k block ++ 0 ∷ []) ++ rest
set_last k [] rest h = absurd (omega arith)
set_last zero (b ∷ block) rest h = refl
set_last (suc k) (b ∷ block) rest h = ap (◌∷◌ b) (set_last k block rest (omega arith))

length-take : (n : ℕ) (xs : List ℕ) → n ≤ length xs → length (take n xs) ≡ n
length-take zero xs h = refl
length-take (suc n) [] h = absurd (omega arith)
length-take (suc n) (x ∷ xs) h = ap suc (length-take n xs (omega arith))

take_append : (xs ys : List ℕ) → take (length xs) (xs ++ ys) ≡ xs
take_append [] ys = refl
take_append (x ∷ xs) ys = ap (◌∷◌ x) (take_append xs ys)

flat_split : (s : Text) (ss : List Text) → (ys : List ℕ) × (flat (s ∷ ss) ≡ ys ++ 0 ∷ [])
flat_split s [] = (s, refl)
flat_split s (r ∷ ss) =
    let (ys, e) = flat_split r ss in
    (s ++ 0 ∷ ys, ap (λ (zs : List ℕ). s ++ 0 ∷ zs) e ∙ sym (append_assoc s (0 ∷ ys) (0 ∷ [])))

new_area_lem :
    (space k : ℕ) (block area : List ℕ)
    → (if ltb (length block) space then length block else space) ≡ suc k
    → new_area space block area
      ≡ (take k block ++ 0 ∷ []) ++ (replicate (space - suc k) 0 ++ drop space area)
unfolding new_area overwrite
new_area_lem space k block area e =
    let in_block : suc k ≤ length block = ground arith in
    let in_space : suc k ≤ space = ground arith in
    let pred : suc k - 1 ≡ k = omega arith in
    let some_room : (suc k == 0) ≡ false = ground arith in
    rw
      (
        e,
        length-replicate space,
        length-take (suc k) block in_block,
        drop_zeros (suc k) space (drop space area) in_space,
        pred,
      )
      (ground (
        arith,
        some_room,
        set_last k block (replicate (space - suc k) 0 ++ drop space area) in_block,
      ))

-- The area that is left: what the space shows of the block, and all beyond it as it was.
new_area-shown :
    (space : ℕ) (ys area : List ℕ)
    → 0 < space
    → new_area space (ys ++ 0 ∷ []) area ≡ shown space (ys ++ 0 ∷ []) ++ drop space area
new_area-shown space ys area h =
    let block : List ℕ = ys ++ 0 ∷ [] in
    let len : length block ≡ suc (length ys) = length-append ys (0 ∷ []) ∙ omega arith in
    elim (Bool-cases (ltb space (length block))) [
      | inl long ↦
          let size : (if ltb (length block) space then length block else space) ≡ suc (space - 1) =
            ground arith in
          let none_left : space - suc (space - 1) ≡ 0 = omega arith in
          rw (new_area_lem space (space - 1) block area size, none_left, long) refl
      | inr short ↦
          let size : (if ltb (length block) space then length block else space) ≡ suc (length ys) =
            ground (arith, len) in
          rw (new_area_lem space (length ys) block area size, short, len, take_append ys (0 ∷ []))
            (sym (
              append_assoc (ys ++ 0 ∷ []) (replicate (space - suc (length ys)) 0)
                (drop space area)))
    ]

-- Where the arguments of the daemon have some space and all new arguments are texts, the process then
-- shows the new arguments in that space, as many bytes as fit with a NUL at the end, and no byte
-- behind the space is changed.
pub rename_process-shown :
    (os : Os) (parent_argv : List Text) (s : Text) (ss : List Text) (rest : List Arg) (b : Booster)
    → 0 < length parent_argv
    → 0 < space_available parent_argv b
    → (t : Booster) × (rename_process os parent_argv
          (suc (length ss))
          (str s ∷ map str ss ++ rest)
          b
        ≡ done tt t)
      × (t.arg_area
          ≡ shown (space_available parent_argv b) (flat (s ∷ ss))
            ++ drop (space_available parent_argv b) b.arg_area)
unfolding rename_process fill_area name_process first_arg
rename_process-shown os parent_argv s ss rest b some_args some_space =
    let space = space_available parent_argv b in
    let (ys, ends) = flat_split s ss in
    let area : new_area space (flat (s ∷ ss)) b.arg_area
        ≡ shown space (flat (s ∷ ss)) ++ drop space b.arg_area =
      rw ends (new_area-shown space ys b.arg_area some_space) in
    let block : new_argv (suc (length ss)) (str s ∷ map str ss ++ rest) ≡ some (flat (s ∷ ss)) =
      new_argv-flat (s ∷ ss) rest in
    (
      record b {
        m_space_available = space;
        arg_area = new_area space (flat (s ∷ ss)) b.arg_area;
        calls = Call.setenv (codes "_") s ∷ Call.set_name (os.basename s) ∷ b.calls;
      },
      ground (arith, block),
      area,
    )
