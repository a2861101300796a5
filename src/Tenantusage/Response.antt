-- ===== src/Tenantusage/Response.antt =====
-- plugins/tenantusage/plugin.go: what a response says was used. The types of the responses are the
-- gateway's, so only the fields that are read stand here: an outer `none` is a nil response, an inner
-- one a response with no usage, and a usage that the gateway converts stands converted. `Cost` is the
-- gateway's cost, a float.
use joysteed_maa_s.Base.{Option, none, some, ℤ, pos}

module _ (Cost : Type 0) where
  pub record LlmUsage : Type 0 where
    pub prompt_tokens : ℤ
    pub completion_tokens : ℤ
    pub total_tokens : ℤ
    pub cost : Option Cost

  pub record TranscriptionUsage : Type 0 where
    pub input_tokens : Option ℤ
    pub output_tokens : Option ℤ
    pub total_tokens : Option ℤ
    pub cost : Option Cost

  -- Speech and images count alike; an image's cost is normalised by the gateway first.
  pub record MediaUsage : Type 0 where
    pub input_tokens : ℤ
    pub output_tokens : ℤ
    pub total_tokens : ℤ
    pub cost : Option Cost

  pub record TokenCount : Type 0 where
    pub input_tokens : ℤ
    pub output_tokens : Option ℤ
    pub total_tokens : Option ℤ

  pub record Response : Type 0 where
    pub text_completion : Option (Option LlmUsage)
    pub chat : Option (Option LlmUsage)
    pub responses : Option (Option LlmUsage)
    pub responses_stream : Option (Option LlmUsage)
    pub compaction : Option (Option LlmUsage)
    pub embedding : Option (Option LlmUsage)
    pub rerank : Option (Option LlmUsage)
    pub speech : Option (Option MediaUsage)
    pub speech_stream : Option (Option MediaUsage)
    pub transcription : Option (Option TranscriptionUsage)
    pub transcription_stream : Option (Option TranscriptionUsage)
    pub image_generation : Option (Option MediaUsage)
    pub passthrough : Option (Option (Option LlmUsage))
    pub count_tokens : Option TokenCount

  abbrev or_zero : Option ℤ → ℤ
  or_zero none = pos 0
  or_zero (some n) = n

  abbrev or_else : Option ℤ → ℤ → ℤ
  or_else none n = n
  or_else (some m) n = m

  unfoldable pub speech_usage : MediaUsage → Option LlmUsage
  speech_usage v = some (record {
    prompt_tokens = v.input_tokens;
    completion_tokens = v.output_tokens;
    total_tokens = v.total_tokens;
    cost = v.cost;
  })

  unfoldable pub transcription_usage : TranscriptionUsage → Option LlmUsage
  transcription_usage v = some (record {
    prompt_tokens = or_zero v.input_tokens;
    completion_tokens = or_zero v.output_tokens;
    total_tokens = or_zero v.total_tokens;
    cost = v.cost;
  })

  unfoldable pub count_usage : TokenCount → Option LlmUsage
  count_usage v = some (record {
    prompt_tokens = v.input_tokens;
    completion_tokens = or_zero v.output_tokens;
    total_tokens = or_else v.total_tokens v.input_tokens;
    cost = none;
  })

  -- A case that is taken whether or not the response has a usage.
  abbrev present : Option (Option LlmUsage) → Option LlmUsage → Option LlmUsage
  present none next = next
  present (some usage) next = usage

  -- A case that is taken only where the response has one.
  abbrev with_usage :
      {A : Type 0} → Option (Option A) → (A → Option LlmUsage) → Option LlmUsage → Option LlmUsage
  with_usage none f next = next
  with_usage (some none) f next = next
  with_usage (some (some a)) f next = f a

  abbrev counted : Option TokenCount → Option LlmUsage
  counted none = none
  counted (some v) = count_usage v

  abbrev of_reply : Response → Option LlmUsage
  of_reply r = present r.text_completion (
      present r.chat (
        with_usage r.responses some (
          with_usage r.responses_stream some (
            with_usage r.compaction some (
              present r.embedding (
                present r.rerank (
                  with_usage r.speech speech_usage (
                    with_usage r.speech_stream speech_usage (
                      with_usage r.transcription transcription_usage (
                        with_usage r.transcription_stream transcription_usage (
                          with_usage r.image_generation speech_usage
                            (with_usage r.passthrough (λ u. u) (counted r.count_tokens)))))))))))))

  -- Without a response, the usage that an error says was billed.
  unfoldable pub response_usage : Option Response → Option (Option LlmUsage) → Option LlmUsage
  unfolding speech_usage transcription_usage count_usage
  response_usage (some r) error = of_reply r
  response_usage none none = none
  response_usage none (some billed) = billed
