-- ===== src/Logger.antt =====
-- src/logger.c and rapp/rapp_logger.h: the levels of messages and the format that is printed. A
-- level is an unsigned number. `W` is what printing changes: `vfprintf` gets the sink and the format
-- that was built (the arguments of the format are the C library's business), and `custom` is what a
-- handler of the program's own does.
pub mod Tracing
use rapp.Prelude.{
  ℕ, suc, ◌+◌, ◌-◌, ◌^◌, Bool, true, false, not, Option, none, some, List, [], ◌∷◌, ◌++◌, ltb, leb,
  ◌==◌, if◌then◌else◌, length, take, get_elem?, Text, codes, ℤ, pos, is_zero, Memory, memory_create,
  memory_destroy,
}
use rapp.Prelude.Run.{Run, done, fault, ◌>>=◌}

abbrev pub log_error : ℕ
log_error = 1

abbrev pub log_mark : ℕ
log_mark = 5

-- CLAMP, with MAX and MIN.
abbrev pub clamp : ℕ → ℕ → ℕ → ℕ
clamp x a b = let y = (if ltb x a then a else x) in if ltb y b then y else b

-- LOG_BUF_SIZE, LOG_TEMPLATE_LEN and PANIC_BUF_SIZE.
abbrev pub log_buf_size : ℕ
log_buf_size = 1024

abbrev pub log_template_len : ℕ
log_template_len = 32

abbrev panic_buf_size : ℕ
panic_buf_size = 256

-- A template: the text before, between and behind its two placeholders.
pub record Template : Type 0 where
  pub before : Text
  pub between : Text
  pub behind : Text

-- COL of a colour, and COL_GRAY.
abbrev col : Text → Text
col x = 27 ∷ (codes "[" ++ (x ++ codes ";1m"))

abbrev col_gray : Text
col_gray = 27 ∷ codes "[0m"

abbrev labelled : Text → Text → Template
labelled color label = record {
  before = col color ++ (label ++ codes " [");
  between = codes "]" ++ (col_gray ++ codes ": ");
  behind = codes "\n";
}

abbrev pub verbatim : Template
verbatim = record { before = []; between = []; behind = [] }

abbrev pub logger_templates : List Template
logger_templates =
    record {
      before = col (codes "31") ++ codes "CRI [";
      between = codes "]: ";
      behind = col_gray ++ codes "\n";
    }
    ∷ (labelled (codes "31") (codes "ERR")
        ∷ (labelled (codes "33") (codes "WRN")
            ∷ (labelled (codes "32") (codes "INF")
                ∷ (labelled (codes "34") (codes "DBG") ∷ (verbatim ∷ (verbatim ∷ []))))))

-- A level past the array is a fault.
unfoldable pub logger_template : ℕ → Run Template
logger_template level = elim (get_elem? logger_templates level) [ none ↦ fault | some t ↦ done t ]

abbrev pub filled : Template → Text → Text → Text
filled t tag fmt = t.before ++ (tag ++ (t.between ++ (fmt ++ t.behind)))

-- `snprintf` writes at most `size - 1` bytes and the NUL.
abbrev snprintf : ℕ → Text → Text
snprintf size text = take (size - 1) text

pub data LogHandler : Type 0 where
  console_handler file_handler null_handler : LogHandler
  custom_handler : ℕ → LogHandler

-- `closes_file` tells `logger_destroy_file` and `logger_flush_file` from those of the null logger.
pub record Logger : Type 0 where
  pub priv : Option ℕ
  pub max_level : ℕ
  pub trace : LogHandler
  pub closes_file : Bool

module _ {W : Type 0} (vfprintf : Option ℕ → Text → W → W)
    (custom : ℕ → Option ℕ → ℕ → Text → Text → W → ℤ × W) where
  unfoldable logger_panic : Option ℕ → Text → W → W
  logger_panic stderr fmt w =
      vfprintf stderr (snprintf panic_buf_size (codes "[CRI] " ++ (fmt ++ codes "\n"))) w

  abbrev no_memory : Text
  no_memory = codes "can't get memory in logger_trace(), the output will be truncated."

  -- The buffer is the local one, a new block, or the local one for want of memory. `stderr` is where
  -- `logger_panic` prints.
  unfoldable pub logger_trace_console :
      Option ℕ → Option ℕ → ℕ → Text → Text → W → Memory → Run (ℤ × W × Memory)
  unfolding logger_template logger_panic memory_create memory_destroy
  logger_trace_console stderr user_data level given_tag fmt w m =
      let tag = (if level == log_mark then [] else given_tag) in
      logger_template level >>= λ template.
      let text = filled template tag fmt in
      let size = log_template_len + length tag + length fmt + 1 in
      if ltb log_buf_size size
      then (let (got, m') = memory_create m in
          if got
          then done (pos 0, vfprintf user_data (snprintf size text) w, memory_destroy m')
          else done (
            pos 1,
            vfprintf user_data (snprintf (log_buf_size - 1) text) (logger_panic stderr no_memory w),
            m',
          ))
      else done (pos 0, vfprintf user_data (snprintf (log_buf_size - 1) text) w, m)

  unfoldable pub logger_trace_file :
      Option ℕ → Option ℕ → ℕ → Text → Text → W → Memory → Run (ℤ × W × Memory)
  unfolding logger_trace_console
  logger_trace_file stderr user_data level tag fmt w m =
      logger_trace_console stderr user_data log_mark tag fmt w m

  abbrev by_handler :
      LogHandler → Option ℕ → Option ℕ → ℕ → Text → Text → W → Memory → Run (ℤ × W × Memory)
  by_handler console_handler stderr priv level tag fmt w m =
      logger_trace_console stderr priv level tag fmt w m
  by_handler file_handler stderr priv level tag fmt w m =
      logger_trace_file stderr priv level tag fmt w m
  by_handler null_handler stderr priv level tag fmt w m = done (pos 0, w, m)
  by_handler (custom_handler callback) stderr priv level tag fmt w m =
      let (ret, w') = custom callback priv level tag fmt w in done (ret, w', m)

  -- `logger_trace` is this with its own argument list.
  unfoldable pub logger_trace_va :
      Option ℕ → Logger → ℕ → Text → Text → W → Memory → Run (ℤ × W × Memory)
  unfolding logger_trace_console logger_trace_file
  logger_trace_va stderr logger level tag fmt w m =
      let clamped = clamp level log_error log_mark in
      if leb clamped logger.max_level
      then by_handler logger.trace stderr logger.priv clamped tag fmt w m
      else done (pos 0, w, m)

  -- `fflush` is the parameter here; its result is not looked at.
  unfoldable logger_flush : (Option ℕ → W → W) → Logger → W → ℤ × W
  logger_flush fflush logger w = (pos 0, if logger.closes_file then fflush logger.priv w else w)

  unfoldable logger_destroy : (Option ℕ → W → W) → Logger → W → Memory → W × Memory
  unfolding logger_flush memory_destroy
  logger_destroy fflush logger w m =
      let (err, w') = logger_flush fflush logger w in
      (w', if is_zero err then memory_destroy m else m)

unfoldable pub logger_new_fp : ℕ → ℕ → Bool → Memory → Option Logger × Memory
unfolding memory_create
logger_new_fp max_level sink colored m =
    let (got, m') = memory_create m in
    (
      if got
          then some (record {
            priv = some sink;
            max_level = clamp max_level log_error log_mark;
            trace = if colored then console_handler else file_handler;
            closes_file = true;
          })
          else none,
      m',
    )

unfoldable logger_new_file : ℕ → ℕ → Memory → Option Logger × Memory
unfolding logger_new_fp
logger_new_file max_level sink m = logger_new_fp max_level sink false m

unfoldable logger_new_console : ℕ → ℕ → Memory → Option Logger × Memory
unfolding logger_new_fp
logger_new_console max_level sink m = logger_new_fp max_level sink true m

unfoldable logger_make : ℕ → LogHandler → Option ℕ → Memory → Option Logger × Memory
unfolding memory_create
logger_make level handler user_data m =
    let (got, m') = memory_create m in
    (
      if got
          then some
              (record { priv = user_data; max_level = level; trace = handler; closes_file = false })
          else none,
      m',
    )

unfoldable logger_new_custom : ℕ → ℕ → Option ℕ → Memory → Option Logger × Memory
unfolding logger_make
logger_new_custom max_level handler user_data m =
    logger_make (clamp max_level log_error log_mark) (custom_handler handler) user_data m

-- The level is -1, which is the largest one: the null handler gets every message.
unfoldable logger_new_null : Memory → Option Logger × Memory
unfolding logger_make
logger_new_null m = logger_make (2 ^ 32 - 1) null_handler none m
