-- ===== src/LuaManager/FileNames.antt =====
-- The names that `ExecuteFile` gives to scripts.
use h1z1_server.Base.{
  ℕ, ◌+◌, ◌≡◌, refl, sym, ◌∙◌, ap, true, List, [], ◌∷◌, ◌++◌, length, drop, arith, All, All-append,
  Misses, find_last_of-append, take-append, drop-append, length-append,
}
use mathlib.Core.List.{append_assoc}
use h1z1_server.LuaManager.{is_slash, is_period, base_name, script_name}

-- A path with a directory: what stands behind the last separator.
base_name-append :
    (dir file : List ℕ) (slash : ℕ)
    → is_slash slash ≡ true
    → All (Misses is_slash) file
    → base_name (dir ++ slash ∷ file) ≡ file
unfolding base_name
base_name-append dir file slash hit h =
    rw (base_name, find_last_of-append is_slash dir slash file hit h)
      (ap (λ (bs : List ℕ). drop (length dir + 1) bs) (sym (append_assoc dir (slash ∷ []) file))
        ∙ drop-append (length dir + 1) (dir ++ slash ∷ []) file
            (omega (arith, length-append dir (slash ∷ []))))

module _ (dir base : List ℕ) (slash : ℕ) (separator : is_slash slash ≡ true)
    (plain : All (Misses is_slash) base) where
  -- A script whose path is a directory, a separator, and a file name of a base without
  -- separators and an extension without separators and periods behind a period, is named by the
  -- base.
  script_name-extension :
      (extension : List ℕ)
      → All (Misses is_slash) extension
      → All (Misses is_period) extension
      → script_name (dir ++ slash ∷ (base ++ b'.' ∷ extension)) ≡ base
  unfolding script_name
  script_name-extension extension no_slash no_period =
      rw (script_name, file, find_last_of-append is_period base b'.' extension refl no_period, file)
        (take-append (length base) base (b'.' ∷ extension) refl)
    where
      file : base_name (dir ++ slash ∷ (base ++ b'.' ∷ extension)) ≡ base ++ b'.' ∷ extension
      file =
          base_name-append dir (base ++ b'.' ∷ extension) slash separator
            (All-append (Misses is_slash) base (b'.' ∷ extension) plain (refl, no_slash))
