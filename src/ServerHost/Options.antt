-- ===== src/ServerHost/Options.antt =====
-- The options of the host, and what it does before it runs servers: ServerHost/main.cpp up to the
-- loop over the folders, and the settings in main.h. What is printed is left out.
use h1z1_server.Base.{
  ℕ, ◌≡◌, refl, ap, ap₂, sym, ◌∙◌, Bool, true, false, not, ◌||◌, List, [], ◌∷◌, ◌++◌, codes,
  same_bytes, same_bytes-true, if◌then◌else◌, Bool-cases, inl, inr, length, ◌==◌, All,
}
use mathlib.Core.List.{append-nil}

pub record ServerSettings : Type 0 where
  pub run_headless : Bool
  pub logs : Bool

-- Where the options lead: on, to the list of options, or to a complaint.
pub data Launch : Type 0 where
  launched usage : ServerSettings → Launch
  unknown_option : List ℕ → ServerSettings → Launch

unfoldable pub parse_options : ServerSettings → List (List ℕ) → Launch
unfolding same_bytes
parse_options st [] = launched st
parse_options st (arg ∷ args) =
    let headless = parse_options (record st { run_headless = true }) args in
    let logged = parse_options (record st { logs = true }) args in
    if same_bytes arg (codes "-headless")
    then headless
    else if same_bytes arg (codes "-logs")
    then logged
    else if same_bytes arg (codes "-help")
    then usage st
    else unknown_option arg st

-- The result 1 of `main`, or the servers to run.
pub data Startup : Type 0 where
  bad_options no_folder no_servers : Startup
  serving : ServerSettings → List (List ℕ) → Startup

-- `servers` lists the folders in a directory.
unfoldable pub startup :
    List ℕ → (List ℕ → Bool) → (List ℕ → List (List ℕ)) → ServerSettings → List (List ℕ) → Startup
unfolding parse_options
startup here directory_exists servers st args = elim (parse_options st args) [
  | usage st' ↦ bad_options
  | unknown_option arg st' ↦ bad_options
  | launched st' ↦
      if not (directory_exists (here ++ codes "\\Servers"))
      then no_folder
      else if length (servers (here ++ codes "\\Servers")) == 0
      then no_servers
      else serving st' (servers (here ++ codes "\\Servers"))
]

-- The flags that are set, and whether an argument sets one.
abbrev pub is_flag : List ℕ → Bool
unfolding same_bytes
is_flag arg = same_bytes arg (codes "-headless") || same_bytes arg (codes "-logs")

abbrev pub mentions : List ℕ → List (List ℕ) → Bool
unfolding same_bytes
mentions name [] = false
mentions name (arg ∷ args) = same_bytes arg name || mentions name args

abbrev pub with_flags : ServerSettings → List (List ℕ) → ServerSettings
with_flags st flags = record {
  run_headless = st.run_headless || mentions (codes "-headless") flags;
  logs = st.logs || mentions (codes "-logs") flags;
}

or_true : (a b : Bool) → true || b ≡ a || (true || b)
or_true true b = refl
or_true false b = refl

or_false : (a : Bool) → a ≡ a || false
or_false true = refl
or_false false = refl

parse_options-headless :
    (st : ServerSettings) (arg : List ℕ) (args : List (List ℕ))
    → same_bytes arg (codes "-headless") ≡ true
    → parse_options st (arg ∷ args) ≡ parse_options (record st { run_headless = true }) args
unfolding parse_options
parse_options-headless st arg args e = rw (parse_options, e)

parse_options-logs :
    (st : ServerSettings) (arg : List ℕ) (args : List (List ℕ))
    → same_bytes arg (codes "-headless") ≡ false
    → same_bytes arg (codes "-logs") ≡ true
    → parse_options st (arg ∷ args) ≡ parse_options (record st { logs = true }) args
unfolding parse_options
parse_options-logs st arg args e f = rw (parse_options, e, f)

parse_options-other :
    (st : ServerSettings) (arg : List ℕ) (args : List (List ℕ))
    → is_flag arg ≡ false
    → parse_options st (arg ∷ args)
      ≡ (if same_bytes arg (codes "-help") then usage st else unknown_option arg st)
unfolding parse_options is_flag
parse_options-other st arg args e = elim (Bool-cases (same_bytes arg (codes "-headless"))) [
  | inl f ↦ cc
  | inr f ↦ elim (Bool-cases (same_bytes arg (codes "-logs"))) [
    | inl g ↦ cc
    | inr g ↦ rw (parse_options, f, g)
  ]
]

headless-not-logs :
    (arg : List ℕ)
    → same_bytes arg (codes "-headless") ≡ true
    → same_bytes arg (codes "-logs") ≡ false
unfolding same_bytes
headless-not-logs arg e =
    ap (λ bs. same_bytes bs (codes "-logs")) (same_bytes-true arg (codes "-headless") e)

logs_of :
    (arg : List ℕ)
    → same_bytes arg (codes "-headless") ≡ false
    → is_flag arg ≡ true
    → same_bytes arg (codes "-logs") ≡ true
unfolding is_flag
logs_of arg e h = sym (ap (λ b. b || same_bytes arg (codes "-logs")) e) ∙ h

parse_options-append :
    (st : ServerSettings) (flags rest : List (List ℕ))
    → All (λ arg. is_flag arg ≡ true) flags
    → parse_options st (flags ++ rest) ≡ parse_options (with_flags st flags) rest
unfolding mentions
parse_options-append st [] rest h =
    ap₂ (λ (b c : Bool). parse_options (record { run_headless = b; logs = c }) rest)
      (or_false st.run_headless) (or_false st.logs)
parse_options-append st (arg ∷ flags) rest h =
    elim (Bool-cases (same_bytes arg (codes "-headless"))) [
      | inl e ↦
          parse_options-headless st arg (flags ++ rest) e
          ∙ parse_options-append (record st { run_headless = true }) flags rest h.1
          ∙ rw (e, headless-not-logs arg e)
              (ap
                (λ (b : Bool).
                  parse_options
                    (record { run_headless = b; logs = st.logs || mentions (codes "-logs") flags })
                    rest)
                (or_true st.run_headless (mentions (codes "-headless") flags)))
      | inr e ↦
          let f = logs_of arg e h.0 in
          parse_options-logs st arg (flags ++ rest) e f
          ∙ parse_options-append (record st { logs = true }) flags rest h.1
          ∙ rw (e, f)
              (ap
                (λ (b : Bool).
                  parse_options
                    (record {
                      run_headless = st.run_headless || mentions (codes "-headless") flags;
                      logs = b;
                    })
                    rest)
                (or_true st.logs (mentions (codes "-logs") flags)))
    ]

module _ (st : ServerSettings) (flags : List (List ℕ))
    (known : All (λ arg. is_flag arg ≡ true) flags) where
  -- Arguments that are all `-headless` or `-logs` set exactly the flags they name and let the
  -- host start; a first argument behind them that is neither leads to the list of options if it
  -- is `-help`, and else to the complaint about it, whatever follows.
  pub parse_options-flags :
      (arg : List ℕ) (args : List (List ℕ))
      → is_flag arg ≡ false
      → (parse_options st flags ≡ launched (with_flags st flags))
        × (parse_options st (flags ++ arg ∷ args) ≡ (
            if same_bytes arg (codes "-help")
            then usage (with_flags st flags)
            else unknown_option arg (with_flags st flags)))
  unfolding parse_options
  parse_options-flags arg args other = (
    ap (parse_options st) (sym (append-nil flags)) ∙ parse_options-append st flags [] known,
    parse_options-append st flags (arg ∷ args) known
        ∙ parse_options-other (with_flags st flags) arg args other,
  )
