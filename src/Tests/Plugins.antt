-- ===== src/Tests/Plugins.antt =====
-- A library that loads and one that lacks a symbol: src/container.c.
use rapp.Prelude.{
  memory_strdup, memory_create, ◌+◌, ◌≡◌, refl, none, some, codes, Memory, generous, inl,
}
use rapp.Prelude.Run.{done}
use rapp.Config.Store.{empty_config}
use rapp.Container.{
  Container, Library, Process, container_new, container_destroy, CreateCallback, null_serve,
  null_destroy, null_init, abi_version,
}
use rapp.Container.Loading.{Creates, container_new-destroy, container_new-leak}

abbrev create : CreateCallback
create config m = (some 9, config, m)

abbrev library : Library
library = record {
  rapp_get_abi_version = some abi_version;
  rapp_create = some create;
  rapp_serve = some null_serve;
  rapp_destroy = some null_destroy;
  rapp_init = some null_init;
}

abbrev start : Process
start = record { memory = generous; opened = 0 }

abbrev created : Memory
created = record generous { calls = 2; live = 2 }

library-Creates : Creates library empty_config generous
unfolding memory_create memory_strdup
library-Creates = record {
  version = refl;
  create = create;
  exported = refl;
  handle = 9;
  config' = empty_config;
  memory = created;
  held = 0;
  created = refl;
  balance = refl;
}

without_serve : Creates (record library { rapp_serve = none }) empty_config generous
unfolding memory_create memory_strdup
without_serve = record {
  version = refl;
  create = create;
  exported = refl;
  handle = 9;
  config' = empty_config;
  memory = created;
  held = 0;
  created = refl;
  balance = refl;
}

container_new-destroy_example :
    (made : Container) × (p' : Process) × (p'' : Process) × (container_new
        (λ name. some library)
        (codes "hello.so")
        empty_config
        start
      ≡ (some made, library-Creates.config', p'))
    × (container_destroy made p' ≡ done p'')
    × (p''.opened ≡ 0)
    × (p''.memory.live ≡ 0)
unfolding library-Creates
container_new-destroy_example =
    container_new-destroy (λ name. some library) (codes "hello.so") empty_config start library
      null_serve null_destroy null_init created refl (λ n. refl) library-Creates refl refl refl refl
      refl

container_new-leak_example :
    (let (made, config', p') =
        container_new
          (λ name. some (record library { rapp_serve = none }))
          (codes "hello.so")
          empty_config
          start in
      (made ≡ none) × (p'.opened ≡ 1) × (p'.memory.live ≡ 2 + without_serve.held))
container_new-leak_example =
    container_new-leak (λ name. some (record library { rapp_serve = none })) (codes "hello.so")
      empty_config start (record library { rapp_serve = none }) refl (λ n. refl) without_serve
      (inl refl)
