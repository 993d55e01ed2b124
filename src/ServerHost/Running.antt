-- ===== src/ServerHost/Running.antt =====
-- What running a list of server folders does to the host's servers and environments.
use h1z1_server.Base.{
  ℕ, ◌+◌, ◌≤◌, ◌≡◌, refl, sym, ap, ◌∙◌, Bool, true, false, Option, none, some, List, [], ◌∷◌, ◌++◌,
  codes, length, arith, if◌then◌else◌, Outcome, done, threw, fault, Bool-cases, inl, inr,
  length-append, subst,
}
use mathlib.Core.List.{append_assoc, append-nil}
use h1z1_server.Lua.{Lua}
use h1z1_server.LuaManager.{LuaManager, ExecutionResult}
use h1z1_server.ServerHost.Configuration.{LuaServerData, read_info, read_config}
use h1z1_server.ServerHost.Servers.{
  Host, DiskView, Round, and_then, and_then_loop, is_success, base_path, configure_server,
  run_server, run_servers,
}

-- What a run gives, if it returns.
abbrev Gives : {S A : Type 0} → (A → Type 0) → Option (Outcome S A) → Type 0
Gives P none = Unit
Gives P (some (done a)) = P a
Gives P (some (threw e s)) = Unit
Gives P (some fault) = Unit

and_then-Gives :
    {S T A B : Type 0} (P : B → Type 0) (t : T) (o : Outcome S A) (f : A → Option (Outcome T B))
    → ((a : A) → Gives P (f a))
    → Gives P (and_then t o f)
and_then-Gives P t (done a) f h = h a
and_then-Gives P t (threw e s) f h = tt
and_then-Gives P t fault f h = tt

and_then_loop-Gives :
    {S T A B : Type 0} (Q : A → Type 0) (P : B → Type 0) (t : T) (o : Option (Outcome S A))
    (f : A → Option (Outcome T B))
    → Gives Q o
    → ((a : A) → Q a → Gives P (f a))
    → Gives P (and_then_loop t o f)
and_then_loop-Gives Q P t none f g h = tt
and_then_loop-Gives Q P t (some (done a)) f g h = h a g
and_then_loop-Gives Q P t (some (threw e s)) f g h = tt
and_then_loop-Gives Q P t (some fault) f g h = tt

Gives-map :
    {S A : Type 0} (P Q : A → Type 0) (o : Option (Outcome S A))
    → ((a : A) → P a → Q a)
    → Gives P o
    → Gives Q o
Gives-map P Q none h g = tt
Gives-map P Q (some (done a)) h g = h a g
Gives-map P Q (some (threw e s)) h g = tt
Gives-map P Q (some fault) h g = tt

Anything : {A : Type 0} → A → Type 0
Anything a = Unit

Gives-Anything : {S A : Type 0} (o : Option (Outcome S A)) → Gives Anything o
unfolding Anything
Gives-Anything none = tt
Gives-Anything (some (done a)) = tt
Gives-Anything (some (threw e s)) = tt
Gives-Anything (some fault) = tt

-- The servers of a host are those of an earlier one and at most `n` more, each with an environment.
pub record Extends {L : Type 0} (host : Host L) (n : ℕ) (host' : Host L) : Type 0 where
  pub new : List LuaServerData
  pub more : List (LuaManager × L)
  pub servers_new : host'.servers ≡ host.servers ++ new
  pub environments_new : host'.environments ≡ host.environments ++ more
  pub paired : length new ≡ length more
  pub bounded : length new ≤ n

Extends-same : {L : Type 0} (host : Host L) (n : ℕ) → Extends host n host
Extends-same host n = record {
  new = [];
  more = [];
  servers_new = sym (append-nil host.servers);
  environments_new = sym (append-nil host.environments);
  paired = refl;
  bounded = omega arith;
}

Extends-Extends :
    {L : Type 0} (h1 h2 h3 : Host L) (m n : ℕ)
    → Extends h1 m h2
    → Extends h2 n h3
    → Extends h1 (m + n) h3
Extends-Extends h1 h2 h3 m n e f = record {
  new = e.new ++ f.new;
  more = e.more ++ f.more;
  servers_new =
      f.servers_new ∙ ap (λ xs. xs ++ f.new) e.servers_new ∙ append_assoc h1.servers e.new f.new;
  environments_new =
      f.environments_new
      ∙ ap (λ xs. xs ++ f.more) e.environments_new
      ∙ append_assoc h1.environments e.more f.more;
  paired =
      omega (arith, e.paired, f.paired, length-append e.new f.new, length-append e.more f.more);
  bounded = omega (arith, e.bounded, f.bounded, length-append e.new f.new);
}

module _ {V H L D : Type 0} (lua : Lua V H L D) (here : List ℕ) where
  -- Whether the main file of a folder is there when it is looked for, and of how many it is.
  abbrev pub has_main : Round → List ℕ → Bool
  has_main round folder = round.at_test.exists (base_path lua here folder ++ codes "\\Server.lua")

  abbrev pub present : (ℕ → Round) → List (List ℕ) → ℕ
  present rounds [] = 0
  present rounds (folder ∷ folders) =
      (if has_main (rounds 0) folder then 1 else 0) + present (λ i. rounds (i + 1)) folders

  configure_server-Extends :
      (n : ℕ) (files : DiskView) (host : Host L) (folder : List ℕ) (m : LuaManager)
      (info : LuaServerData) (l : L)
      → Gives (Extends host 1) (configure_server lua here n files host folder m info l)
  unfolding configure_server
  configure_server-Extends n files host folder m info l =
      and_then-Gives {S = LuaManager × L} {A = ExecutionResult × (LuaManager × L)} (Extends host 1)
        host _ _ (λ r. by_result (is_success r.0) r.1.0 r.1.1)
    where
      by_result :
          (b : Bool) (m' : LuaManager) (l' : L)
          → Gives (Extends host 1) (
              if b
              then and_then_loop host (read_config lua n m' info l') (λ c. some (
                  done (record {
                    servers = host.servers ++ c.0 ∷ [];
                    environments = host.environments ++ (m', c.1) ∷ [];
                  })))
              else some fault)
      by_result false m' l' = tt
      by_result true m' l' =
          and_then_loop-Gives Anything (Extends host 1) host (read_config lua n m' info l') _
            (Gives-Anything _)
            (λ c given. record {
              new = c.0 ∷ [];
              more = (m', c.1) ∷ [];
              servers_new = refl;
              environments_new = refl;
              paired = refl;
              bounded = omega arith;
            })

  run_server-Extends :
      (n : ℕ) (m : LuaManager) (round : Round) (host : Host L) (folder : List ℕ)
      → Gives
          (Extends host (if has_main round folder then 1 else 0))
          (run_server lua here n m round host folder)
  unfolding run_server
  run_server-Extends n m round host folder = elim (Bool-cases (has_main round folder)) [
    | inl e ↦
        rw (run_server, e)
          (and_then-Gives {S = LuaManager × L} {A = ExecutionResult × (LuaManager × L)}
            (Extends host 1) host _ _ (λ r. by_result (is_success r.0) r.1.0 r.1.1))
    | inr e ↦ rw (run_server, e) (Extends-same host 0)
  ]
    where
      by_result :
          (b : Bool) (m' : LuaManager) (l' : L)
          → Gives (Extends host 1) (
              if b
              then and_then_loop host
                  (read_info lua n m' l')
                  (λ i. configure_server lua here n round.at_config host folder m' i.0 i.1)
              else some (done host))
      by_result false m' l' = Extends-same host 1
      by_result true m' l' =
          and_then_loop-Gives Anything (Extends host 1) host (read_info lua n m' l') _
            (Gives-Anything _)
            (λ i given. configure_server-Extends n round.at_config host folder m' i.0 i.1)

  run_servers-Gives :
      (n : ℕ) (m : LuaManager) (rounds : ℕ → Round) (host : Host L) (folders : List (List ℕ))
      → Gives (Extends host (present rounds folders)) (run_servers lua here n m rounds host folders)
  unfolding run_servers
  run_servers-Gives n m rounds host [] = Extends-same host 0
  run_servers-Gives n m rounds host (folder ∷ folders) =
      let first = if has_main (rounds 0) folder then 1 else 0 in
      let later = λ (i : ℕ). rounds (i + 1) in
      and_then_loop-Gives (Extends host first) (Extends host (first + present later folders)) host
        (run_server lua here n m (rounds 0) host folder) _
        (run_server-Extends n m (rounds 0) host folder)
        (λ host' e.
          Gives-map (Extends host' (present later folders))
            (Extends host (first + present later folders)) _
            (λ host'' f. Extends-Extends host host' host'' first (present later folders) e f)
            (run_servers-Gives n m later host' folders))

  -- However the disk changes between the calls of a round, where running a list of server
  -- folders returns, the host's servers and its environments are those from before with equally
  -- many new ones behind them, at most one for each folder whose main file was there when its
  -- round tested for it.
  pub run_servers-Extends :
      (n : ℕ) (m : LuaManager) (rounds : ℕ → Round) (host host' : Host L) (folders : List (List ℕ))
      → run_servers lua here n m rounds host folders ≡ some (done host')
      → Extends host (present rounds folders) host'
  run_servers-Extends n m rounds host host' folders returns =
      subst (Gives (Extends host (present rounds folders))) returns
        (run_servers-Gives n m rounds host folders)
