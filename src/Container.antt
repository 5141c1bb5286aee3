-- ===== src/Container.antt =====
-- src/container.c: the plugins behind their callbacks. A library that `dlopen` finds is outside the
-- program: it is the record of its symbols, each missing where `dlsym` fails, and `dlopen` is a
-- parameter. A failed assert is a fault.
pub mod Loading
use rapp.Prelude.{
  false, true, ℕ, suc, ◌-◌, Bool, not, Option, none, some, if◌then◌else◌, Text, ℤ, pos, negsuc,
  is_zero, ltb_ℤ, ◌&&◌, Memory, memory_create, memory_strdup, memory_destroy,
}
use rapp.Prelude.Run.{Run, done, fault, ◌>>=◌}
use rapp.Config.{RappConfig}
use rapp.HttpRequest.{HttpRequest}
use rapp.HttpResponse.{HttpResponse, is_some}

-- The plugin's `handle` is an address, `none` for the null pointer.
abbrev Handle : Type 0
Handle = Option ℕ

abbrev pub ServeCallback : Type 0
ServeCallback = Handle → HttpRequest → HttpResponse → Memory → Run (ℤ × HttpResponse × Memory)

abbrev pub DestroyCallback : Type 0
DestroyCallback = Handle → Memory → Run (ℤ × Memory)

abbrev pub InitCallback : Type 0
InitCallback = Handle → RappConfig → Run (ℤ × RappConfig)

abbrev pub CreateCallback : Type 0
CreateCallback = RappConfig → Memory → Handle × RappConfig × Memory

-- `plugin` tells whether a library stands behind the container.
pub record Container : Type 0 where
  pub plugin : Bool
  pub handle : Handle
  pub name : Text
  pub serve : ServeCallback
  pub destroy : DestroyCallback
  pub init : InitCallback

pub record Library : Type 0 where
  pub rapp_get_abi_version : Option ℤ
  pub rapp_create : Option CreateCallback
  pub rapp_serve : Option ServeCallback
  pub rapp_destroy : Option DestroyCallback
  pub rapp_init : Option InitCallback

-- The allocator, and the libraries that are open.
pub record Process : Type 0 where
  pub memory : Memory
  pub opened : ℕ

-- ABI_VERSION.
abbrev pub abi_version : ℤ
abi_version = pos 1

unfoldable pub is_abi_compatible : ℤ → ℤ → Bool
is_abi_compatible core plugin = not (ltb_ℤ core plugin) && not (ltb_ℤ plugin core)

abbrev dlclose : Process → Process
dlclose p = record p { opened = p.opened - 1 }

-- What `container_make` gives: no container, or one, with the configuration and the allocator.
abbrev pub Made : Type 0
Made = Option Container × RappConfig × Memory

-- The symbols that are looked up after the plugin is created.
unfoldable pub with_symbols : Library → Text → Handle → RappConfig → Memory → Made
with_symbols lib name handle config m = elim lib.rapp_serve [
  | none ↦ (none, config, m)
  | some serve ↦ elim lib.rapp_destroy [
    | none ↦ (none, config, m)
    | some destroy ↦ elim lib.rapp_init [
      | none ↦ (none, config, m)
      | some init ↦ (
        some (record {
          plugin = true;
          handle = handle;
          name = name;
          serve = serve;
          destroy = destroy;
          init = init;
        }),
        config,
        m,
      )
    ]
  ]
]

unfoldable pub container_make : Library → Text → RappConfig → Memory → Made
unfolding memory_create memory_strdup memory_destroy with_symbols
container_make lib name config m = elim lib.rapp_create [
  | none ↦ (none, config, m)
  | some plugin_create ↦
      let (got, m₁) = memory_create m in
      if not got
      then (none, config, m₁)
      else let (named, m₂) = memory_strdup m₁ in
        if not named
        then (none, config, memory_destroy m₂)
        else let (handle, config', m₃) = plugin_create config m₂ in
          if is_some handle
          then with_symbols lib name handle config' m₃
          else (none, config', memory_destroy (memory_destroy m₃))
]

abbrev in_process : Process → Made → Option Container × RappConfig × Process
in_process p (c, config, m) = (c, config, record p { memory = m })

unfoldable pub container_new :
    (Text → Option Library) → Text → RappConfig → Process → Option Container × RappConfig × Process
unfolding is_abi_compatible container_make
container_new dlopen name config p = elim (dlopen name) [
  | none ↦ (none, config, p)
  | some lib ↦
      let p' = record p { opened = suc p.opened } in
      elim lib.rapp_get_abi_version [
        | none ↦ (none, config, dlclose p')
        | some plugin_abi ↦
            if not (is_abi_compatible abi_version plugin_abi)
            then (none, config, dlclose p')
            else in_process p' (container_make lib name config p.memory)
      ]
]

unfoldable container_init : Container → RappConfig → Run (ℤ × RappConfig)
container_init c config = c.init c.handle config

-- Where the plugin refuses to be destroyed, everything stays.
abbrev unload : Bool → Process → ℤ × Memory → Process
unload plugin p (ret, m) =
    if is_zero ret
    then (let p' = (if plugin then dlclose p else p) in
        record p' { memory = memory_destroy (memory_destroy m) })
    else record p { memory = m }

unfoldable pub container_destroy : Container → Process → Run Process
unfolding memory_destroy
container_destroy c p = c.destroy c.handle p.memory >>= λ x. done (unload c.plugin p x)

unfoldable pub container_serve :
    Container → HttpRequest → HttpResponse → Memory → Run (ℤ × HttpResponse × Memory)
container_serve c = c.serve c.handle

abbrev pub null_serve : ServeCallback
null_serve handle request response m =
    if is_some handle then done (negsuc 0, response, m) else fault

abbrev pub null_destroy : DestroyCallback
null_destroy handle m = if is_some handle then done (pos 0, m) else fault

abbrev pub null_init : InitCallback
null_init handle config = if is_some handle then done (pos 0, config) else fault

unfoldable container_new_custom :
    Text
    → InitCallback
    → ServeCallback
    → DestroyCallback
    → Handle
    → Memory
    → Option Container × Memory
unfolding memory_create memory_strdup memory_destroy
container_new_custom tag init serve destroy user_data m =
    let (got, m₁) = memory_create m in
    if not got
    then (none, m₁)
    else let (named, m₂) = memory_strdup m₁ in
      if not named then (none, memory_destroy m₂) else (
        some (record {
          plugin = false;
          handle = user_data;
          name = tag;
          serve = serve;
          destroy = destroy;
          init = init;
        }),
        m₂,
      )

-- The logger is the handle of the null container.
unfoldable pub container_new_null : ℕ → Text → Memory → Option Container × Memory
unfolding container_new_custom
container_new_null logger tag m =
    container_new_custom tag null_init null_serve null_destroy (some logger) m
