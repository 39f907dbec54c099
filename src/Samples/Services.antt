-- ===== src/Samples/Services.antt =====
-- A Redis that meets the laws asked of it, and a pipeline that meets those asked of it.
use longshot.Common.{ℕ, Text, codes, Option, none, List, [], ◌∷◌, refl, false, true}
use longshot.Redis.{Redis, counter_after, items_after, value_after, messages_after}
use longshot.Tasks.Monad.{ok, Pipeline, Job, answer}

pub record Memory : Type 0 where
  pub counters : Text → ℕ
  pub lists : Text → List Text
  pub strings : Text → Option Text
  pub channels : Text → List Text

abbrev pub memory : Redis
memory = record {
  State = Memory;
  exec = λ c s. record {
    counters = λ k. counter_after c k (s.counters k);
    lists = λ k. items_after c k (s.lists k);
    strings = λ k. value_after c k (s.strings k);
    channels = λ k. messages_after c k (s.channels k);
  };
  counter = λ s k. s.counters k;
  items = λ s k. s.lists k;
  value = λ s k. s.strings k;
  messages = λ s k. s.channels k;
  counter-exec = λ c s k. refl;
  items-exec = λ c s k. refl;
  value-exec = λ c s k. refl;
  messages-exec = λ c s k. refl;
}

abbrev pub empty : Memory
empty = record { counters = λ k. 0; lists = λ k. []; strings = λ k. none; channels = λ k. [] }

-- Every page is "some text", every summary is "short", every stream answers "so " and "be it".
abbrev pub sample_pipeline : Pipeline
sample_pipeline = record {
  fetch_text = λ u. ok (codes "some text");
  summarize_chunk = λ t i. ok (codes "short");
  chat_stream = λ p s. record { deltas = codes "so " ∷ codes "be it" ∷ []; ending = none };
  fetch_raises = λ u. tt;
  summarize_raises = λ t i. tt;
  stream_raises = λ p s. tt;
}

abbrev pub sample_job : Job
sample_job = record {
  session_id = codes "s1";
  pipeline = sample_pipeline;
  poll = λ n. answer false;
  time = λ n. n;
  interrupt = true;
}
