-- ===== src/Lib.antt =====
-- A model of the core of cjs, the JavaScript bindings of GObject: how the JavaScript wrapper of a
-- GObject is kept alive, and how a function of a C library is called from JavaScript.
--
-- The parts, and the files that model them:
--   Root        cjs/jsapi-util-root.h. GjsMaybeOwned<T> is the record MaybeOwned: `heap` is m_heap,
--               `root` is m_root and `notify` is m_notify. Each method is the definition of its name
--               (`root_thing` is root, `assign` is operator=), and a failed g_assert is `none`.
--               `has_context` is whether gjs_context_get_current() gives a context.
--   Toggle      gi/toggle.cpp and gi/toggle.h. ToggleQueue is the record of that name; every method
--               is one definition, run as a whole under the lock.
--   Object      gi/object.cpp, the toggle notifications: ObjectInstance holds a MaybeOwned, GObject's
--               reference counts are the parameter GLib, and a notification from any thread either
--               switches the wrapper or goes through the queue. A step is a whole
--               call; Object/Race has a notification that the main thread overtakes.
--   Gi          what GObject-Introspection answers about a callable. The library is not part of the
--               repository; its answers are fields of records, which the definitions take.
--   Cache       gi/arg-cache.h and gi/arg-cache.cpp: GjsArgumentCache is ArgumentCache, a table of
--               marshallers is a constructor of Marshallers, and gjs_arg_cache_build_return,
--               gjs_arg_cache_build_instance and gjs_arg_cache_build_arg are build_return,
--               build_instance and build_arg, which write the caches of the other arguments in place.
--               The marshallers of enums are in Defs, those of integers and flags in Integers, with a
--               GIArgument given by the member that was written last (gi/arg-inl.h).
--   Function    gi/function.cpp: init_cached_function_data and uninit_cached_function_data (Init), and
--               gjs_invoke_c_function (Invoke has its loops, Call the rest). It calls the marshallers,
--               libffi and the JavaScript engine through the record Engine, with any behaviour.
--   Args        cjs/jsapi-util-args.h: gjs_parse_call_args. A format is a list of characters, a location
--               is a Param of a Kind, and the conversions of the JavaScript engine are Conversions.
--   Context     cjs/context.cpp: the record GjsContext has the fields of GjsContextPrivate that the
--               queue of promise jobs, exit(), the rejected promises and the scheduling of garbage
--               collections use. run_jobs_fallible is in Run and eval in Eval; what JavaScript code
--               does to the context is given by Effects.
--   Closure     gi/closure.cpp: GjsClosure, its two invalidation notifiers, and gjs_closure_invoke.
--   Instances   gi/object.cpp, the list of instances: GjsListLink is a store of two pointers for each
--               instance, and the loops of iterate_wrapped_gobjects and remove_wrapped_gobjects_if.
--   Release     gi/arg.cpp: gjs_g_argument_release and its relatives. TypeInfo is a GITypeInfo with its
--               contents, Argument a GIArgument with everything it points at, and what is freed is a
--               list of events; the cases of gjs_g_arg_release_internal are in Internal.
--   Prelude     lists, Boolean tests, integers and sets of bits over the native numbers.
--
-- Numbers. Positions and counters are natural numbers; where the source stores them in eight bits,
-- they are written `% 256` or checked against MAX_ARGS. Enum bounds are 32-bit words that are read
-- back signed or unsigned, as the source does, and so are integer arguments, with their width
-- written out. A size_t has 64 bits.
--
-- Loops. Loops over arguments and over the values of an enum are recursion on a list. The loop that
-- drains the toggle queue runs on fuel, and more fuel than there are queued items is enough, as is
-- shown with it. So do the loops over the list of instances, where the length of the list is the
-- bound, and the loop over the promise jobs, where jobs that enqueue others without end have none:
-- there the bound is a number given to each job, above the sum of those of the jobs it enqueues.
--
-- Not modelled: the conversion of values to and from JavaScript (gi/arg.cpp and the marshallers that
-- call it, or that work on floating point), which stays a parameter of a call; the preparation of an
-- invoker by the library; interleavings of threads, but for the one of Race: a reference count
-- changes and is notified in one step; debug output; and the parts of the repository outside the
-- files above.
pub mod Prelude
pub mod Root
pub mod Toggle
pub mod Object
pub mod Gi
pub mod Cache
pub mod Function
pub mod Args
pub mod Context
pub mod Closure
pub mod Instances
pub mod Release
