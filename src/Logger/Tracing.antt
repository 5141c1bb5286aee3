-- ===== src/Logger/Tracing.antt =====
-- What reaches the sink of a console or file logger.
use rapp.Prelude.{
  [], ℕ, zero, suc, ◌+◌, ◌-◌, ◌≤◌, ◌≡◌, refl, ◌∙◌, Bool, true, false, Option, none, some, ◌++◌,
  arith, ltb, leb, ◌==◌, if◌then◌else◌, length, length-append, take, take-all, get_elem?, Text, ℤ,
  pos, Memory, memory_create, memory_destroy, Bool-cases, inl, inr,
}
use rapp.Prelude.Granted.{Granted, create-Grown}
use rapp.Prelude.Run.{done}
use rapp.Logger.{
  file_handler, console_handler, Template, Logger, logger_templates, logger_template, filled,
  verbatim, clamp, log_error, log_mark, log_buf_size, log_template_len, logger_trace_console,
  logger_trace_file, logger_trace_va, logger_new_fp,
}

abbrev template_of : ℕ → Template
template_of level = elim (get_elem? logger_templates level) [ none ↦ verbatim | some t ↦ t ]

abbrev overhead : Template → ℕ
overhead t = length t.before + length t.between + length t.behind

-- The text of a message at a level: a message of the last one shows no tag.
abbrev pub message : ℕ → Text → Text → Text
message level tag fmt = filled (template_of level) (if level == log_mark then [] else tag) fmt

-- LOG_TEMPLATE_LEN is an upper bound, really.
template_fits :
    (level : ℕ)
    → level ≤ log_mark
    → (logger_template level ≡ done (template_of level))
      × (overhead (template_of level) ≤ log_template_len - 12)
unfolding logger_template
template_fits zero h = (refl, omega arith)
template_fits (suc zero) h = (refl, omega arith)
template_fits (suc (suc zero)) h = (refl, omega arith)
template_fits (suc (suc (suc zero))) h = (refl, omega arith)
template_fits (suc (suc (suc (suc zero)))) h = (refl, omega arith)
template_fits (suc (suc (suc (suc (suc zero))))) h = (refl, omega arith)
template_fits (suc (suc (suc (suc (suc (suc n)))))) h = absurd (omega arith)

length-filled :
    (t : Template) (tag fmt : Text)
    → length (filled t tag fmt) ≡ overhead t + length tag + length fmt
length-filled t tag fmt = omega (
  arith,
  length-append t.before (tag ++ (t.between ++ (fmt ++ t.behind))),
  length-append tag (t.between ++ (fmt ++ t.behind)),
  length-append t.between (fmt ++ t.behind),
  length-append fmt t.behind,
)

module _ {W : Type 0} (vfprintf : Option ℕ → Text → W → W)
    (custom : ℕ → Option ℕ → ℕ → Text → Text → W → ℤ × W) (stderr : Option ℕ) (level : ℕ)
    (tag fmt : Text) (w : W) (m : Memory) where
  trace_console-message :
      (sink : Option ℕ)
      → level ≤ log_mark
      → Granted m
      → (m' : Memory) × (logger_trace_console vfprintf custom stderr sink level tag fmt w m
          ≡ done (pos 0, vfprintf sink (message level tag fmt) w, m'))
        × (m'.live ≡ m.live)
  unfolding logger_trace_console memory_destroy
  trace_console-message sink h g =
      let (found, fits) = template_fits level h in
      let shown = (if level == log_mark then [] else tag) in
      let text = message level tag fmt in
      let len = length-filled (template_of level) shown fmt in
      let size = log_template_len + length shown + length fmt + 1 in
      elim (Bool-cases (ltb log_buf_size size)) [
        | inl big ↦
            let (got, grown) = create-Grown m g in
            let whole : take (size - 1) text ≡ text =
              take-all (size - 1) text (omega (arith, len, fits)) in
            (
              memory_destroy (memory_create m).1,
              rw (found, big, got, whole) refl,
              omega (arith, grown.live),
            )
        | inr small ↦
            let whole : take (log_buf_size - 1 - 1) text ≡ text =
              take-all (log_buf_size - 1 - 1) text (ground (arith, len, fits)) in
            (m, rw (found, small, whole) refl, refl)
      ]

-- The logger that is made where memory is granted.
abbrev made : ℕ → ℕ → Bool → Logger
made max_level sink colored = record {
  priv = some sink;
  max_level = clamp max_level log_error log_mark;
  trace = if colored then console_handler else file_handler;
  closes_file = true;
}

clamp-le : (x : ℕ) → clamp x log_error log_mark ≤ log_mark
clamp-le x = ground arith

module _ {W : Type 0} (vfprintf : Option ℕ → Text → W → W)
    (custom : ℕ → Option ℕ → ℕ → Text → Text → W → ℤ × W) (stderr : Option ℕ) where
  -- A console logger (`colored`) or a file logger: where memory is granted, a message is printed
  -- exactly if its level, raised to an error and lowered to a mark, is at most the logger's, which
  -- was bounded in the same way. Then 0 is returned, no block stays in use, and the format that is
  -- printed is not cut, however long the tag and the message are: the console's has the colours of
  -- the level and the tag, the file's is the message alone, with no tag and no newline.
  pub new_fp-trace_va :
      (max_level sink level : ℕ) (colored : Bool) (tag fmt : Text) (w : W) (m : Memory)
      → Granted m
      → (let shown = clamp level log_error log_mark in
          (logger : Logger) × (m₁ : Memory) × (m₂ : Memory) × (logger_new_fp max_level sink colored
              m
            ≡ (some logger, m₁))
          × (logger_trace_va vfprintf custom stderr logger level tag fmt w m₁
              ≡ done (
                pos 0,
                (if leb shown (clamp max_level log_error log_mark)
                    then vfprintf
                        (some sink)
                        (message (if colored then shown else log_mark) tag fmt)
                        w
                    else w),
                m₂,
              ))
          × (m₂.live ≡ suc m.live))
  unfolding logger_new_fp logger_trace_va logger_trace_file
  new_fp-trace_va max_level sink level true tag fmt w m g =
      let (got, grown) = create-Grown m g in
      let m₁ = (memory_create m).1 in
      let shown = clamp level log_error log_mark in
      let (m₂, e, live) =
        trace_console-message vfprintf custom stderr shown tag fmt w m₁ (some sink) (clamp-le level)
          grown.grants in
      elim (Bool-cases (leb shown (clamp max_level log_error log_mark))) [
        | inl p ↦ (made max_level sink true, m₁, m₂, rw got refl, rw (p, e) refl, live ∙ grown.live)
        | inr p ↦ (made max_level sink true, m₁, m₁, rw got refl, rw p refl, grown.live)
      ]
  new_fp-trace_va max_level sink level false tag fmt w m g =
      let (got, grown) = create-Grown m g in
      let m₁ = (memory_create m).1 in
      let shown = clamp level log_error log_mark in
      let (m₂, e, live) =
        trace_console-message vfprintf custom stderr log_mark tag fmt w m₁ (some sink) (omega arith)
          grown.grants in
      elim (Bool-cases (leb shown (clamp max_level log_error log_mark))) [
        | inl p ↦
            (made max_level sink false, m₁, m₂, rw got refl, rw (p, e) refl, live ∙ grown.live)
        | inr p ↦ (made max_level sink false, m₁, m₁, rw got refl, rw p refl, grown.live)
      ]
