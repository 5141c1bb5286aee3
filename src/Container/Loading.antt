-- ===== src/Container/Loading.antt =====
-- Which libraries load, and what a load leaves behind.
use rapp.Prelude.{
  ℕ, suc, ◌+◌, ◌-◌, ◌≡◌, refl, true, Option, none, some, arith, Text, pos, Memory, memory_create,
  memory_strdup, memory_destroy, ◌⊎◌, inl, inr, Option-cases,
}
use rapp.Prelude.Granted.{Granted, create-Grown}
use rapp.Prelude.Run.{done}
use rapp.Config.{RappConfig}
use rapp.Container.{
  Container, Library, Process, CreateCallback, ServeCallback, DestroyCallback, InitCallback,
  abi_version, container_new, container_make, container_destroy, with_symbols, is_abi_compatible,
}

-- A library with the right version that can create its plugin from this configuration: `handle`
-- is the plugin, which holds `held` blocks.
pub record Creates (lib : Library) (config : RappConfig) (m : Memory) : Type 0 where
  pub version : lib.rapp_get_abi_version ≡ some abi_version
  pub create : CreateCallback
  pub exported : lib.rapp_create ≡ some create
  pub handle : ℕ
  pub config' : RappConfig
  pub memory : Memory
  pub held : ℕ
  pub created : create config (memory_strdup (memory_create m).1).1 ≡ (some handle, config', memory)
  pub balance : memory.live ≡ (memory_strdup (memory_create m).1).1.live + held

strdup-Granted :
    (m : Memory)
    → Granted m
    → ((memory_strdup m).0 ≡ true) × ((memory_strdup m).1.live ≡ suc m.live)
unfolding memory_strdup
strdup-Granted m g = let (e, grown) = create-Grown m g in (e, grown.live)

module _ (dlopen : Text → Option Library) (name : Text) (config : RappConfig) (p : Process)
    (lib : Library) where
  -- Memory granted, the outcome is that of the look-up of the other symbols.
  container_new-symbols :
      dlopen name ≡ some lib
      → Granted p.memory
      → (c : Creates lib config p.memory)
      → container_new dlopen name config p ≡ (
          let (made, config', m) = with_symbols lib name (some c.handle) c.config' c.memory in
          (made, config', record p { memory = m; opened = suc p.opened }))
  unfolding container_new container_make is_abi_compatible
  container_new-symbols e g c =
      let (got, grown) = create-Grown p.memory g in
      let (named, _) = strdup-Granted (memory_create p.memory).1 grown.grants in
      rw (container_new, e, c.version, c.exported, container_make, got, named, c.created) refl

  -- A plugin without one of `rapp_serve`, `rapp_destroy` and `rapp_init` is refused after it was
  -- created: no container comes back, the library stays open, and the blocks of the container, of
  -- its name and of the plugin stay in use.
  pub container_new-leak :
      dlopen name ≡ some lib
      → Granted p.memory
      → (c : Creates lib config p.memory)
      → (lib.rapp_serve ≡ none) ⊎ ((lib.rapp_destroy ≡ none) ⊎ (lib.rapp_init ≡ none))
      → (let (made, config', p') = container_new dlopen name config p in
          (made ≡ none)
          × (p'.opened ≡ suc p.opened)
          × (p'.memory.live ≡ p.memory.live + 2 + c.held))
  unfolding with_symbols
  container_new-leak e g c missing =
      rw (container_new-symbols e g c, refused c missing) (refl, refl, leaked c g)
    where
      leaked :
          (c : Creates lib config p.memory)
          → Granted p.memory
          → c.memory.live ≡ p.memory.live + 2 + c.held
      leaked c g =
          let (got, grown) = create-Grown p.memory g in
          let (named, more) = strdup-Granted (memory_create p.memory).1 grown.grants in
          omega (arith, c.balance, more, grown.live)

      refused :
          (c : Creates lib config p.memory)
          → (lib.rapp_serve ≡ none) ⊎ ((lib.rapp_destroy ≡ none) ⊎ (lib.rapp_init ≡ none))
          → with_symbols lib name (some c.handle) c.config' c.memory ≡ (none, c.config', c.memory)
      refused c (inl s) = rw (with_symbols, s) refl
      refused c (inr (inl d)) = elim (Option-cases lib.rapp_serve) [
        | inl s ↦ rw (with_symbols, s) refl
        | inr (serve, s) ↦ rw (with_symbols, s, d) refl
      ]
      refused c (inr (inr i)) = elim (Option-cases lib.rapp_serve) [
        | inl s ↦ rw (with_symbols, s) refl
        | inr (serve, s) ↦ elim (Option-cases lib.rapp_destroy) [
          | inl d ↦ rw (with_symbols, s, d) refl
          | inr (destroy, d) ↦ rw (with_symbols, s, d, i) refl
        ]
      ]

  -- A plugin with all symbols is loaded, and destroying its container, where its own destructor
  -- succeeds and frees what the plugin held, closes the library and frees every block.
  pub container_new-destroy :
      (serve : ServeCallback) (destroy : DestroyCallback) (init : InitCallback) (m : Memory)
      → dlopen name ≡ some lib
      → Granted p.memory
      → (c : Creates lib config p.memory) → lib.rapp_serve ≡ some serve
      → lib.rapp_destroy ≡ some destroy
      → lib.rapp_init ≡ some init
      → destroy (some c.handle) c.memory ≡ done (pos 0, m)
      → m.live + c.held ≡ c.memory.live
      → (made : Container) × (p' : Process) × (p'' : Process) × (container_new dlopen name config p
          ≡ (some made, c.config', p'))
        × (container_destroy made p' ≡ done p'')
        × (p''.opened ≡ p.opened)
        × (p''.memory.live ≡ p.memory.live)
  unfolding with_symbols container_destroy memory_destroy
  container_new-destroy serve destroy init m e g c s d i q b =
      let (got, grown) = create-Grown p.memory g in
      let (named, more) = strdup-Granted (memory_create p.memory).1 grown.grants in
      (
        record {
          plugin = true;
          handle = some c.handle;
          name = name;
          serve = serve;
          destroy = destroy;
          init = init;
        },
        record { memory = c.memory; opened = suc p.opened },
        record { memory = memory_destroy (memory_destroy m); opened = suc p.opened - 1 },
        rw (container_new-symbols e g c, with_symbols, s, d, i) refl,
        rw q refl,
        omega arith,
        omega (arith, c.balance, more, grown.live, b),
      )
