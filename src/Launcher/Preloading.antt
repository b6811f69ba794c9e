-- ===== src/Launcher/Preloading.antt =====
-- loadLibraries of src/launcher/launcher.c, against the list of what it is to open.
use touch_applauncherd.Common.{
  ◌≡◌, refl, not, ◌&&◌, ◌==◌, ltb, if◌then◌else◌, List, [], ◌∷◌, Text, length, arith, Bool-cases,
  inl, inr,
}
use touch_applauncherd.Common.Exits.{done}
use touch_applauncherd.Os.{Call, History}
use touch_applauncherd.Launcher.{Launcher, first_char, open_library, load_libraries}

-- The lines that name a library, in their order.
abbrev pub listed : List Text → List Text
listed [] = []
listed (lib ∷ libs) =
    if not (first_char lib == b'#') && ltb 1 (length lib) then lib ∷ listed libs else listed libs

-- How a line has its library opened: by the letter in front, if there is one.
abbrev pub opening : Text → Call
opening [] = Call.dlopen_with 258 []
opening (x ∷ lib) =
    if x == b'N'
    then Call.dlopen_with 258 lib
    else if x == b'L'
    then Call.dlopen_with 257 lib
    else if x == b'D'
    then Call.dlopen_with 264 lib
    else Call.dlopen_with 258 (x ∷ lib)

-- The calls that open the libraries of some lines, newest first, after others.
abbrev pub openings : List Text → History → History
openings [] h = h
openings (lib ∷ libs) h = openings libs (opening lib ∷ h)

open_library_lem :
    (lib : Text) (l : Launcher)
    → open_library lib l ≡ done tt (record { calls = opening lib ∷ l.calls })
unfolding open_library
open_library_lem [] l = refl
open_library_lem (x ∷ lib) l = ground arith

-- The libraries opened are those of the lines that are no comment and have more than one character, in
-- their order and each with the flags of its letter, and nothing else is called.
pub load_libraries_lem :
    (libs : List Text) (l : Launcher)
    → load_libraries libs l ≡ done tt (record { calls = openings (listed libs) l.calls })
unfolding load_libraries
load_libraries_lem [] l = refl
load_libraries_lem (lib ∷ libs) l =
    elim (Bool-cases (not (first_char lib == b'#') && ltb 1 (length lib))) [
      | inl names ↦ ground (
        arith,
        names,
        open_library_lem lib l,
        load_libraries_lem libs (record { calls = opening lib ∷ l.calls }),
      )
      | inr other ↦ ground (arith, other, load_libraries_lem libs l)
    ]
