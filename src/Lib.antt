-- ===== src/Lib.antt =====
-- edge0 runs mixture-of-experts models whose experts stay on storage: a layer reads an expert when the
-- router asks for it, keeps it where it can, and fills fixed slots ahead of the next step. This library
-- models that core of the Python package, python/src/edge0, and the tools that repack a checkpoint for other platforms.
--
-- The parts and their files:
--   * Cache, Buffer: SharedExpertCache and PrefetchBuffer of streaming/cache.py. Ordered dictionaries
--     are association lists, the oldest entry first.
--   * Options: LayerOptions of streaming/options.py and its profiles.
--   * Layer: StreamingSwitchGLU of streaming/layer.py. Layer/State is its state: Config is what
--     `__init__` fixes, Stores is where bundles are kept, Layer is the rest. Layer/Build is `_build` and
--     the bytes that `load_hot_layer` copies; Layer/Bundles is `_get_bundles`, `prefetch` and its
--     callback; Layer/Incr is `_stage_incr`; Layer/Staging is `_build_staged_bundles`, `stage_experts`,
--     `wait_staged` and `swap_staged`; Layer/Pins is the pins, the hot and whole-layer stacks and
--     `reset`; Layer/Forward is `__call__`; Layer/Step is `sync_actuals` and what
--     primes the first decode step; Layer/Async puts these calls in any order, as the threads do.
--   * Engine: Engine/Loop is engine/base.py, with `finish_reason` of server/chat.py; Engine/Prerouter is
--     prerouter/state.py and prerouter/stager.py, the ling stager in Engine/Prerouter/Ling; Engine/Qwen
--     and Engine/Ling are the staging around a step of engine/qwen.py and engine/ling.py, and
--     Engine/Hooks the callback before a layer of engine/hooks.py.
--   * Server: Server/Text is Python's text and Server/Json the decoded JSON. Server/Request is the parser
--     of requests and Server/Session the prompt, the run and the queue of server/chat.py; Server/Stream
--     is the plain and the streamed reply and Server/Routes both transports of server/app.py;
--     Server/ToolCalls is server/tool_calls.py, its regular expressions written out.
--   * Checkpoint: SafetensorsMmap of streaming/mmap.py. Registry: registry.py. Adapters:
--     `install_lora` of adapters/lora.py, over the objects of a model.
--   * Tools: Tools/Experts is ios/tools/repack_experts.py, with `pack`, `verify` and `resident` in files of
--     their names; Tools/Gguf is windows/tools/repack_mlx_to_gguf.py, its writer in Tools/Gguf/Writer and
--     `classify` in Tools/Gguf/Plan; Tools/R3 is the table of names and the interleaving of
--     windows/tools/repack_r3.py; Tools/Decimal prints the numbers in names.
--   * Base: what the modules share. Examples, CacheExamples, EngineExamples, ServerExamples,
--     CheckpointExamples, ToolExamples and GgufExamples: concrete data.
--
-- How they interact: the engine stages experts on the layers, each layer resolves bundles through the
-- shared cache and the prefetch buffer, and a forward pass reads the staged slots. The predicates
-- IsExact (the stores hold nothing but the checkpoint's bundles) and IsIdle carry the theorems of one
-- part to the next. The server resets the engine, makes the prompt and runs the loops of the engine for
-- one request after the other; the tokens that the loop reports become the chunks of a stream.
--
-- Numbers are natural; the shift of a byte in Tools/Gguf keeps its wrap-around written out, and none of
-- the other modelled code wraps around. Device tensors, activations, logits and
-- the floats of the usage counts are parameters, with their operations in the records Config, Floats,
-- Kernels, Family, Sampler and Heads. The bytes of a tensor are a parameter of the Config. What the
-- thread pool does (whether a build raised, whether a submission ran at once, whether a callback came
-- before the promotion) is an argument of the operation that meets it, and so is the order in which
-- Python iterates over a set. JSON decoding and encoding, the tokenizer, the chat template and which
-- characters are white space are parameters. The chunks of a prompt are cut on fuel, for which its
-- length is enough, and so are the loops over the matches in a text, each of which takes at least one
-- character. The digits of a number have the number plus one as fuel, and each divides it by ten; a range
-- with a step has its end, and each step is at least one. Every other loop is structural.
--
-- Not modelled: the backend and the model mathematics, sampling and routing scores, which are
-- floating-point, the installation of layers and heads, the command line, HTTP headers and
-- framing, identifiers and times, wall-clock statistics, the cache of assembled stacks, and the
-- applications of other platforms.
mod Base
pub mod Cache
pub mod Buffer
pub mod Options
pub mod Layer
pub mod Engine
pub mod Server
pub mod Checkpoint
pub mod Registry
pub mod Adapters
pub mod Tools
mod Examples
mod CacheExamples
mod EngineExamples
mod ServerExamples
mod CheckpointExamples
mod ToolExamples
mod GgufExamples
