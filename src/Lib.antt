-- ===== src/Lib.antt =====
-- The ForgeOps tracker client for C++ (src/ and include/forge_ops_tracker/): a library inside an
-- application that reports errors, traces, metrics and timings to a server. Callers on any thread
-- hand over payloads; bounded queues and buffers keep them; background threads deliver them over
-- HTTP; and before anything leaves the process it is masked, scrubbed or, under strict privacy,
-- reduced to structured facts.
--
-- The files, with the code that each models (paths from the repository's root):
-- - Prelude: lists measured by native numbers, texts as lists of bytes, and runs of a machine.
-- - Change: src/change.cpp, a recorded change.
-- - Client: src/client.cpp, the status classes, drop reasons, a request with its time limits, and
--   what post and deliver answer. libcurl is a parameter.
-- - Configuration: src/configuration.cpp, the DSN, the endpoints derived from it, is_enabled, and the
--   hosts that get a traceparent header; Configuration/Values is the record of its values, with what
--   they start as. The DSN's regular expression is matched by hand.
-- - DeliveryQueue: src/delivery_queue.cpp. DeliveryQueue has the members under the mutex and one
--   function for each critical section; DeliveryQueue/System is the machine of threads, whose events
--   are critical sections and finished deliveries, so a list of events is one interleaving.
-- - EventBuilder: src/event_builder.cpp, the payload of what was thrown: collected, scrubbed, and under
--   strict privacy stripped. EventBuilder/Inputs is what was thrown and what the runtime says of it
--   (the demangler, the stack and the clock are parameters), EventBuilder/Scrub is scrub_payload.
-- - Reporter: src/reporter.cpp, report over the builder and the queue, with the exceptions that pass
--   through it as values.
-- - Tracker: src/forge_ops_tracker.cpp, the functions of the library over the state of one thread.
--   Tracker/Breadcrumbs is its trail, Tracker/Scopes the scoped spans and traces, Tracker/Captures what
--   a call captures, and the warning that nothing is sent.
-- - MetricBuffer: src/metric_buffer.cpp, in the form of DeliveryQueue, with overlapping flushes.
-- - Histogram and PerformanceFlusher: src/histogram_bucketer.cpp and src/performance_flusher.cpp, the
--   buckets of timings and the subtraction of what a flush has sent. A double is a parameter: a type
--   with the operations that the code applies to it.
-- - StdMap: std::map<std::string, V> as its sorted list of pairs.
-- - TraceParent: src/trace_parent.cpp, the traceparent header, the ids, and a URL's host.
-- - SpanQueue: src/span_queue.cpp, the queue behind traces and changes, as a machine of threads.
-- - SpanBuffer: src/span_buffer.cpp, the spans of one trace; SpanBuffer/Data is span_data of that
--   file and of src/strict_privacy.cpp.
-- - Json: the operations of a nlohmann::json value that the code uses and the documented laws that
--   the theorems rely on, as records; Json/Example is a JSON that has them.
-- - Scan: the loop over a text that the next three share. A place is told by the byte before and the
--   text ahead, in place of an index.
-- - SqlStatement: src/sql_statement.cpp, mask and what it calls; SqlStatement/Names and Objects are
--   the names that a masked statement holds, SqlStatement/Causes the statement behind an exception.
-- - StrictPrivacy: src/strict_privacy.cpp, the normalisation of messages, and hosts, paths and names;
--   StrictPrivacy/Sha256 is the fingerprint of a message, StrictPrivacy/Events what is left of an
--   event. A function that edits a JSON object is a run of steps that each edit one key.
-- - PiiScrubber: src/pii_scrubber.cpp, the sensitive keys, and IBANs and card numbers found by hand;
--   PiiScrubber/Walk is scrub, the walk over a JSON value.
--
-- A client reads the URIs and the limits that the configuration derives; queues and buffers call the
-- client outside their locks; a finished trace of a span buffer goes into the span queue; and a
-- span's statement is masked as it is built. A captured exception goes with its thread's user, trail
-- and trace through the reporter, which builds a payload and pushes it onto the delivery queue.
--
-- Bounds and fuel: every loop over a text is structural. scrub has the depth of the value as fuel,
-- and one more; the zeros that SHA-256 pads with have 64, more than a block takes. Counters that the
-- code keeps in an unsigned long wrap at 2 ^ 64 where they can grow without bound
-- (PerformanceFlusher). The digits of a number are made with the number itself as fuel, one more
-- than it needs. Sizes of queues and buffers are far below the range of size_t and are not wrapped.
-- Clock readings are natural numbers; a difference that the code clamps at 0 is a subtraction that
-- stops at 0. timeout_seconds is an int in the source; negative values are not covered.
--
-- Not modelled: what libcurl, the JSON library, std::regex, the clocks, random devices and threads
-- do inside; the making of the process-wide objects on first use, the flush functions, the order of
-- the shutdown at exit and the terminate handler (src/forge_ops_tracker.cpp); a delivery or a hook that
-- throws out of a flush of a metric buffer, and a discard while a caller's own flush is under way; and
-- the test program.
mod Prelude
pub mod Change
pub mod Client
pub mod Configuration
pub mod DeliveryQueue
pub mod EventBuilder
pub mod Histogram
pub mod Json
pub mod MetricBuffer
pub mod PerformanceFlusher
pub mod PiiScrubber
pub mod Reporter
pub mod Scan
pub mod SpanBuffer
pub mod SpanQueue
pub mod SqlStatement
pub mod StdMap
pub mod StrictPrivacy
pub mod TraceParent
pub mod Tracker
