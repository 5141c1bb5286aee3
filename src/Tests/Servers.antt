-- ===== src/Tests/Servers.antt =====
-- A server that cannot bind its port, and options on the command line: src/tcpserver.c and
-- src/config/commandline.c.
use rapp.Prelude.{str_eq}
use rapp.Prelude.{
  ℕ, suc, ◌+◌, ◌-◌, ◌≡◌, refl, true, false, none, some, [], ◌∷◌, codes, if◌then◌else◌, length,
  get_elem?, ℤ, pos, negsuc, Memory, generous,
}
use rapp.Prelude.Run.{done}
use rapp.Config.{ConfigOption, ConfigSection, RappConfig, param_int, int_value}
use rapp.Config.Env.{succeeded}
use rapp.Config.Convert.{config_add_value_from_string}
use rapp.Config.CommandLine.{
  ArgpOption, ArgpTable, accepted, einval, no_table, option_name, replace_underscores,
  rappoptions_len, config_generate_commandline,
}
use rapp.Config.CommandLine.Table.{section_rows, firsts, seconds}
use rapp.Config.CommandLine.Generated.{generate_commandline-rows}
use rapp.Config.CommandLine.Parsing.{option_key, option_at, parse_commandline_opt}
use rapp.Config.CommandLine.Parsed.{after_value, parse-generated}
use rapp.Eloop.{ELoop}
use rapp.Eloop.Entries.{Distinct, IsValid}
use rapp.TcpServer.{TcpServer, Sockets, nobody, tcp_server_start_listen}
use rapp.TcpServer.Listening.{Held, opening, without, Accounted}
use rapp.TcpServer.Stopping.{Undone, start_listen-destroy}

-- Descriptor 6 is the next, and every port is in use.
abbrev port_in_use : Sockets Held
port_in_use = record {
  getaddrinfo = λ host port k. (pos 0, record k { addresses = suc k.addresses });
  freeaddrinfo = λ k. record k { addresses = k.addresses - 1 };
  socket = λ k. (pos 6, opening (pos 6) k);
  setsockopt = λ fd name k. (pos 0, k);
  set_nonblocking = λ fd k. (pos 0, k);
  bind = λ fd k. (negsuc 0, k);
  listen = λ fd n k. (pos 0, k);
  accept4 = λ fd k. (nobody, k);
  close = closing;
  epoll_ctl = λ op fd mask k. (pos 0, k);
}
  where
    closing : ℤ → Held → Held
    closing (pos fd) k = record k { opened = without fd k.opened }
    closing (negsuc n) k = k

accounted : Accounted port_in_use
accounted = record {
  held = λ k. k;
  looked_up = λ host port k. refl;
  freed = λ k. refl;
  made = λ k. refl;
  optioned = λ fd name k. refl;
  set_flag = λ fd k. refl;
  bound = λ fd k. refl;
  listened = λ fd n k. refl;
  polled = λ op fd mask k. refl;
  closed = λ fd k. refl;
}

abbrev nothing_held : Held
nothing_held = record { addresses = 0; opened = [] }

abbrev stopped : TcpServer
stopped = record { listen_fd = negsuc 0; accept_callback = some 80; user_data = none }

abbrev idle : ELoop
idle = record {
  collector = record { collect_entries_list = [] };
  callbacks_list = [];
  running = true;
}

idle-IsValid : IsValid idle
unfolding Distinct
idle-IsValid = record { consistent = tt; distinct = tt }

start_listen-destroy_example : Undone port_in_use accounted idle nothing_held (
    tcp_server_start_listen port_in_use true 70 71
      (codes "localhost")
      8080
      stopped
      idle
      nothing_held
      generous)
start_listen-destroy_example =
    start_listen-destroy port_in_use accounted idle nothing_held true 70 71 (codes "localhost") 8080
      stopped generous refl idle-IsValid

abbrev port : ConfigOption
port = record {
  type = param_int;
  help = none;
  name = codes "listen_port";
  range_set = true;
  value_min = pos 1;
  value_max = pos 65535;
  multivalued = pos 1;
  num_values = 0;
  default_value = int_value (pos 0);
  default_set = false;
  metavar = none;
  no_override = false;
  values = [];
}

abbrev verbose : ConfigOption
verbose = record port { name = codes "verbose" }

abbrev core : ConfigSection
core = record { name = codes "core"; num_opts = 2; options = port ∷ verbose ∷ [] }

abbrev conf : RappConfig
conf = record { num_sections = 1; sections = core ∷ [] }

generate_commandline-rows_example :
    (let rows = section_rows 0 0 conf.sections in
      (t' : ArgpTable) × (m' : Memory) × (config_generate_commandline conf no_table generous
        ≡ done (true, t', m'))
      × (t'.entries ≡ firsts rows)
      × (t'.mapped ≡ seconds rows)
      × (t'.room ≡ 1 + rappoptions_len)
      × (t'.num_argp_options ≡ length rows))
generate_commandline-rows_example =
    generate_commandline-rows conf no_table generous refl (λ n. refl) (refl, tt)

parse-generated_example :
    (let (status, opt', m₃) = config_add_value_from_string port (codes "8080") generous in
      (t' : ArgpTable) × (m' : Memory) × (n : ℕ) × (e : ArgpOption) × (conf' : RappConfig)
      × (config_generate_commandline conf no_table generous ≡ done (true, t', m'))
      × (get_elem? t'.entries n ≡ some e)
      × (e.name ≡ some (option_name (codes "core") (codes "listen_port")))
      × (parse_commandline_opt t' (option_key e.key) (some (codes "8080")) conf generous
          ≡ done (if succeeded status then accepted else einval, conf', m₃))
      × (option_at (record { section = 0; entry = 0 }) conf'.sections
          ≡ some (after_value (succeeded status) opt'))
      × (option_at (record { section = 0; entry = 1 }) conf'.sections
          ≡ option_at (record { section = 0; entry = 1 }) conf.sections))
parse-generated_example =
    parse-generated conf no_table generous generous 0 0 0 1 core port (codes "8080") refl
      (λ n. refl) (refl, tt) refl refl refl

option_name-port : option_name (codes "cache") (codes "max_size") ≡ codes "cache-max-size"
unfolding replace_underscores str_eq
option_name-port = refl
